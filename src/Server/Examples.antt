-- ===== src/Server/Examples.antt =====
-- The database that the examples of the server are about.
mod Storage
mod Calls
mod Limits
use secret_git.Prelude.{
  Text, codes, ℕ, ◌+◌, ◌*◌, ◌/◌, ◌%◌, ◌^◌, ◌<◌, ◌≤◌, ◌≡◌, ◌≢◌, refl, ap, true, false, some, List,
  [], ◌∷◌, ◌++◌, if◌then◌else◌, ◌==◌, nat_eq, text_eq, option_eq, ok, err, length, find_where,
  count_where, update_where, delete_where, any_where, arith, text_beq,
}
use secret_git.Samples.{toy_library}
use secret_git.Prelude.{All, inr, replicate}
use secret_git.Hex.{IsByte, sha256_hex, hex_encode, hex_digit}
use secret_git.Server.{Account, Db, Pointer, empty_db, bad_token, conflict, not_found, role_writer}
use secret_git.Server.Passwords.{hash_token, hash_password, new_token, format_params}
use secret_git.Server.Accounts.{
  login, authenticate, ensure_bootstrap, disable_account, consume_bootstrap, token_row,
  account_by_username, insert_account,
}
use secret_git.Server.Accounts.Revocation.{
  IsSession, authenticate-IsSession, authenticate-disable_account,
}
use secret_git.Server.Accounts.Admins.{IsSound, is_active_admin, disable_account_keeps_admin}
use secret_git.Server.Repos.{
  role_for, cas_manifest, cas_roster, get_manifest, get_roster, put_pointer, version_of,
  consume_invite, insert_access,
}
use secret_git.Server.Repos.Swaps.{
  get_manifest-cas_manifest, cas_manifest_once, cas_roster_once, cas_roster-genesis_replaced,
}
use secret_git.Server.Repos.Invites.{consume_invite_once, consume_bootstrap_once}
use secret_git.Server.Http.{
  Service, Config, Request, reply, auth_repo, authenticated, bearer, strip_prefix, respond,
}
use secret_git.Server.Files.{keyfile_name, read_file, write_file, safe_name, has_path_char}
use secret_git.Server.Files
use secret_git.Split.{trim_space}
use secret_git.Server.Handlers.{handle_get_blob, handle_put_keyfile}
use secret_git.Server.Routes
use secret_git.Server.Routes.{DataRoute, needs_write, serve_data, serve}
use secret_git.Server.Routes.Access.{IsWriter, serve_data-IsWriter}
use secret_git.Server.Routes.Isolation.{SameRepo, serve_data-SameRepo}
use secret_git.Server.Routes.Contents.{IsNamed, served-IsNamed}
use secret_git.Server.Throttling.{backoff_seconds, second}
use secret_git.Server.Throttling.Backoff.{min, backoff_seconds-min}
use secret_git.Server.Login.{handle_login}
use secret_git.Server.Login.Costs.{Pays, handle_login-Pays, login_costs_same}
use secret_git.Server.Http.Outcomes.{Leaves}
use secret_git.Server.Histories.{empty, started, answered, IsHealthy}
use secret_git.Server.Histories.Invariant.{Reachable-IsHealthy}

abbrev pub alice : Account
alice = record {
  id = 1;
  username = codes "alice";
  argon2_salt = [];
  argon2_params = [];
  argon2_hash = [];
  is_admin = true;
  disabled = false;
}

abbrev pub bob : Account
bob = record {
  id = 2;
  username = codes "bob";
  argon2_salt = [];
  argon2_params = [];
  argon2_hash = [];
  is_admin = true;
  disabled = false;
}

-- Two administrators; bob has a token and may write to the repository r.
abbrev pub sample_db : Db
sample_db = record empty_db {
  accounts = alice ∷ bob ∷ [];
  next_account = 3;
  repo_access = record { account_id = 2; repo_id = codes "r"; role = role_writer } ∷ [];
  api_tokens = record { token_hash = hash_token (codes "t"); account_id = 2; expiry = 100 } ∷ [];
  invites =
      record {
        token_hash = hash_token (codes "i");
        repo_id = codes "r";
        role = role_writer;
        expiry = 100;
        used = false;
      }
      ∷ [];
  bootstrap = record { token_hash = hash_token (codes "b"); used = false } ∷ [];
}

abbrev pub disabled_db : Db
disabled_db = record sample_db {
  accounts = alice ∷ record bob { disabled = true } ∷ [];
  api_tokens = [];
}

abbrev pub one_pointer : ℕ → Text → List Pointer
one_pointer v blob = record { repo_id = codes "r"; version = v; blob = blob } ∷ []
