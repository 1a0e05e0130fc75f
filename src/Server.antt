-- ===== src/Server.antt =====
-- internal/server: the tables of the server's database, its files, and its errors. Times are
-- whole seconds, and the database and the disk do not fail of themselves: an error of a statement
-- is a violated constraint.
pub mod Passwords
pub mod Accounts
pub mod Repos
pub mod Files
pub mod Throttling
pub mod Http
pub mod Handlers
pub mod Login
pub mod Routes
pub mod Histories
mod Examples
pub mod ClientIp
pub mod Slots
use secret_git.Prelude.{Text, codes, ℕ, Bool, true, false, List, [], Result, ok, err}
use secret_git.Prelude.{Eq, ◌≡◌, ◌↔◌}

-- The sentinel errors, a violated constraint, and argon2 parameters that do not parse.
pub data ServerError : Type 0 where
  conflict not_found bad_hash used_or_expired bad_token last_admin : ServerError
  constraint_violated bad_salt bad_params bad_stored_hash : ServerError

-- accounts
pub record Account : Type 0 where
  pub id : ℕ
  pub username : Text
  pub argon2_salt : Text
  pub argon2_params : Text
  pub argon2_hash : Text
  pub is_admin : Bool
  pub disabled : Bool

-- repo_access
pub record Access : Type 0 where
  pub account_id : ℕ
  pub repo_id : Text
  pub role : Text

-- invites
pub record Invite : Type 0 where
  pub token_hash : Text
  pub repo_id : Text
  pub role : Text
  pub expiry : ℕ
  pub used : Bool

-- api_tokens
pub record ApiToken : Type 0 where
  pub token_hash : Text
  pub account_id : ℕ
  pub expiry : ℕ

-- bootstrap
pub record Bootstrap : Type 0 where
  pub token_hash : Text
  pub used : Bool

-- repos
pub record Repo : Type 0 where
  pub repo_id : Text
  pub created_at : ℕ

-- A row of manifest_state or of roster_state.
pub record Pointer : Type 0 where
  pub repo_id : Text
  pub version : ℕ
  pub blob : Text

-- login_throttle
pub record Throttle : Type 0 where
  pub scope : Text
  pub key : Text
  pub fail_count : ℕ
  pub window_until : ℕ
  pub updated_at : ℕ

-- The tables; `next_account` is the id that AUTOINCREMENT gives next.
pub record Db : Type 0 where
  pub accounts : List Account
  pub next_account : ℕ
  pub repos : List Repo
  pub repo_access : List Access
  pub invites : List Invite
  pub api_tokens : List ApiToken
  pub bootstrap : List Bootstrap
  pub manifest_state : List Pointer
  pub roster_state : List Pointer
  pub login_throttle : List Throttle

-- A file under blobDir, by the two names that filepath.Join puts below it: that of the repository's
-- directory and that of the file.
pub record File : Type 0 where
  pub repo_id : Text
  pub name : Text
  pub content : Text

-- RoleReader, RoleWriter
abbrev pub role_reader : Text
role_reader = codes "reader"

abbrev pub role_writer : Text
role_writer = codes "writer"

abbrev pub empty_db : Db
empty_db = record {
  accounts = [];
  next_account = 1;
  repos = [];
  repo_access = [];
  invites = [];
  api_tokens = [];
  bootstrap = [];
  manifest_state = [];
  roster_state = [];
  login_throttle = [];
}
