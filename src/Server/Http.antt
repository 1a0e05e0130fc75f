-- ===== src/Server/Http.antt =====
-- internal/server/server.go: requests, responses, and authorization. A handler takes what
-- net/http and encoding/json make of a request: its headers, its body (none where it exceeds
-- MaxBodyLen), its decoded JSON (none where that fails), and the path values.
pub mod Outcomes
pub mod Numbers
use secret_git.Prelude.{
  Text, codes, ℕ, ◌+◌, ◌-◌, ◌*◌, ◌^◌, Bool, false, ◌&&◌, ◌||◌, not, Option, none, some, List, [],
  ◌∷◌, ◌++◌, if◌then◌else◌, ◌==◌, nat_eq, text_eq, option_eq, Result, ok, err, guard, or_err, leb,
  ltb,
}
use secret_git.Prelude.Results.{◌>>=◌, ◌>>◌}
use secret_git.Library.{Library}
use mathlib.Core.List.{reverse}
use secret_git.Split.{trim_space}
use secret_git.Jcs.Decimal.{decimal}
use secret_git.Server.{ServerError, Db, File, role_writer}
use secret_git.Server.Passwords.{Cost}
use secret_git.Server.Accounts.{Session, authenticate}
use secret_git.Server.Repos.{role_for}

-- What a handler reads and writes; costs records the runs of argon2id so far.
pub record Service : Type 0 where
  pub db : Db
  pub files : List File
  pub costs : List Cost

-- Config, as far as the handlers read it: lifetimes and the grace in seconds, the backoff as a
-- duration.
pub record Config : Type 0 where
  pub token_ttl : ℕ
  pub invite_ttl : ℕ
  pub login_backoff_base : ℕ
  pub login_backoff_max : ℕ
  pub throttle_prune_grace : ℕ

pub record Request : Type 0 where
  pub authorization : Text
  pub if_match : Text
  pub new_version : Text
  pub body : Option Text

pub record Response : Type 0 where
  pub status : ℕ
  pub etag : Option ℕ
  pub retry_after : Option ℕ
  pub content : Text

-- A response with a status alone, and one with content.
abbrev pub reply : ℕ → Response
reply status = record { status = status; etag = none; retry_after = none; content = [] }

abbrev pub reply_with : ℕ → Text → Response
reply_with status content = record {
  status = status;
  etag = none;
  retry_after = none;
  content = content;
}

abbrev pub reply_etag : ℕ → ℕ → Text → Response
reply_etag status version content = record {
  status = status;
  etag = some version;
  retry_after = none;
  content = content;
}

-- A handler that answers early changes nothing.
unfoldable pub respond : Result Response (Response × Service) → Service → Response × Service
respond (ok (r, s')) s = (r, s')
respond (err r) s = (r, s)

-- The outcome of an operation of the storage as a response.
abbrev pub or_reply :
    {A : Type 0} → Result ServerError A → (ServerError → Response) → Result Response A
or_reply (ok a) f = ok a
or_reply (err e) f = err (f e)

-- s[len(prefix):], where s begins with prefix
unfoldable pub strip_prefix : Text → Text → Option Text
strip_prefix [] s = some s
strip_prefix (p ∷ ps) [] = none
strip_prefix (p ∷ ps) (c ∷ cs) = if c == p then strip_prefix ps cs else none

-- bearer
unfoldable pub bearer : Text → Option Text
unfolding strip_prefix
bearer h = elim (strip_prefix (codes "Bearer ") h) [ none ↦ none | some t ↦ some (trim_space t) ]

unfoldable pub trim_quotes_left : Text → Text
trim_quotes_left [] = []
trim_quotes_left (c ∷ cs) = if c == b'"' then trim_quotes_left cs else c ∷ cs

-- strings.Trim at quotation marks
unfoldable pub trim_quotes : Text → Text
unfolding trim_quotes_left
trim_quotes s = reverse (trim_quotes_left (reverse (trim_quotes_left s)))

-- strconv.ParseUint in base ten, before its range check
unfoldable pub parse_digits : ℕ → Text → Option ℕ
parse_digits n [] = some n
parse_digits n (c ∷ cs) =
    let rest = parse_digits (n * 10 + (c - 48)) cs in if leb 48 c && leb c 57 then rest else none

abbrev pub below_2_64 : Option ℕ → Option ℕ
below_2_64 none = none
below_2_64 (some n) = if ltb n (2 ^ 64) then some n else none

unfoldable pub parse_uint : Text → Option ℕ
unfolding parse_digits
parse_uint [] = none
parse_uint (c ∷ cs) = below_2_64 (parse_digits 0 (c ∷ cs))

-- parseETagVersion
unfoldable pub parse_etag_version : Text → Option ℕ
unfolding parse_uint trim_quotes
parse_etag_version s = parse_uint (trim_quotes (trim_space s))

-- etag
unfoldable pub etag_text : ℕ → Text
unfolding decimal
etag_text v = b'"' ∷ (decimal v ++ (b'"' ∷ []))

-- What a role permits.
abbrev pub permits : Option Text → Bool → Bool
permits none need_write = false
permits (some role) need_write = not need_write || role == role_writer

module _ ⦃lib : Library⦄ where
  -- The first half of authRepo and of authAdmin.
  unfoldable pub authenticated : Request → ℕ → Service → Result Response Session
  authenticated r now s = do
    token ← or_err (bearer r.authorization) (reply 401)
    or_reply (authenticate token now s.db) (λ _. reply 401)

  -- authRepo
  unfoldable pub auth_repo : Request → Text → Bool → ℕ → Service → Result Response Session
  auth_repo r repo_id need_write now s = do
    acc ← authenticated r now s
    guard (permits (role_for acc.id repo_id s.db) need_write) (reply 403)
    ok acc

  -- authAdmin
  unfoldable pub auth_admin : Request → ℕ → Service → Result Response Session
  auth_admin r now s = do acc ← authenticated r now s; guard acc.is_admin (reply 403); ok acc
