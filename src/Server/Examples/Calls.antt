-- ===== src/Server/Examples/Calls.antt =====
-- The theorems about the handlers at concrete inputs.
use secret_git.Prelude.{
  codes, ◌*◌, ◌-◌, ◌/◌, ◌^◌, ◌≡◌, refl, ap, true, false, some, [], ◌∷◌, nat_eq, text_eq, option_eq,
  ok, err, length, find_where, delete_where, arith, text_beq,
}
use secret_git.Samples.{toy_library}
use secret_git.Prelude.{All, inr, replicate}
use secret_git.Hex.{IsByte, sha256_hex, hex_encode, hex_digit}
use secret_git.Server.{Account, Db, empty_db, not_found}
use secret_git.Server.Passwords.{hash_token, new_token, format_params}
use secret_git.Server.Accounts.{
  login, authenticate, ensure_bootstrap, token_row, account_by_username,
}
use secret_git.Server.Repos.{role_for}
use secret_git.Server.Http.Numbers.{parse_etag_version-etag_text}
use secret_git.Server.Http.{
  parse_etag_version, etag_text, Service, Config, Request, auth_repo, authenticated, bearer,
  strip_prefix, respond,
}
use secret_git.Server.Files.{keyfile_name, read_file, write_file, safe_name, has_path_char}
use secret_git.Server.Files
use secret_git.Split.{trim_space}
use secret_git.Server.Handlers.{handle_get_blob, handle_put_keyfile}
use secret_git.Server.Routes
use secret_git.Server.Routes.{DataRoute, needs_write, serve_data, serve}
use secret_git.Server.Routes.Access.{IsWriter, serve_data-IsWriter}
use secret_git.Server.Routes.Confined.{IsConfined, serve_data-IsConfined}
use secret_git.Server.Routes.Contents.{IsNamed, served-IsNamed}
use secret_git.Server.Throttling.{backoff_seconds, second}
use secret_git.Server.Throttling.Backoff.{min, backoff_seconds-min}
use secret_git.Server.Login.{handle_login}
use secret_git.Server.Login.Costs.{Pays, handle_login-Pays, login_costs_same}
use secret_git.Server.Histories.{empty, started, answered, IsHealthy}
use secret_git.Server.Histories.Invariant.{Reachable-IsHealthy}
use secret_git.Server.Examples.{sample_db}

abbrev sample_service : Service
sample_service = record {
  db = sample_db;
  files = record { repo_id = codes "r"; name = codes "6d"; content = codes "m" } ∷ [];
  costs = [];
}

-- bob's request.
abbrev by_bob : Request
by_bob = record {
  authorization = codes "Bearer t";
  if_match = codes "0";
  new_version = codes "0";
  body = some (codes "new");
}

bob_stores : length (serve_data Routes.put_keyfile by_bob (codes "r") 5 sample_service).1.files ≡ 2
unfolding serve_data handle_put_keyfile respond auth_repo authenticated bearer strip_prefix
    authenticate token_row find_where role_for Files.put_keyfile write_file delete_where safe_name
    has_path_char trim_space text_beq hash_token hex_encode
bob_stores = refl

serve_data-IsWriter_example : IsWriter by_bob (codes "r") 5 sample_service
serve_data-IsWriter_example =
    serve_data-IsWriter Routes.put_keyfile by_bob (codes "r") 5 sample_service
      (λ e. omega (arith, bob_stores, ap (λ (s : Service). length s.files) e))

serve_data-IsConfined_example :
    IsConfined
      (codes "r")
      sample_service
      (serve_data Routes.put_keyfile by_bob (codes "r") 5 sample_service).1
serve_data-IsConfined_example =
    serve_data-IsConfined Routes.put_keyfile by_bob (codes "r") 5 sample_service

sample-IsNamed : All IsNamed sample_service.files
unfolding sha256_hex hex_encode hex_digit
sample-IsNamed = (inr refl, tt)

bob_reads :
    (serve_data (Routes.get_blob (codes "6d")) by_bob (codes "r") 5 sample_service).0.status ≡ 200
unfolding serve_data handle_get_blob respond auth_repo authenticated bearer strip_prefix
    authenticate token_row find_where role_for Files.get_blob read_file safe_name has_path_char
    trim_space text_beq hash_token hex_encode
bob_reads = refl

served-IsNamed_example :
    sha256_hex
      (serve_data (Routes.get_blob (codes "6d")) by_bob (codes "r") 5 sample_service).0.content
    ≡ codes "6d"
served-IsNamed_example =
    served-IsNamed by_bob (codes "r") (codes "6d") 5 sample_service sample-IsNamed (λ e. cc e)
      bob_reads

abbrev sample_config : Config
sample_config = record {
  token_ttl = 100;
  invite_ttl = 100;
  login_backoff_base = 1_000_000_000;
  login_backoff_max = 300_000_000_000;
  throttle_prune_grace = 3600;
}

abbrev founded : Service
founded =
    (serve sample_config
      (Routes.bootstrap [] (some (new_token (codes "b"), codes "alice", codes "pw"))) 5
      (record { db = (ensure_bootstrap (codes "b") empty_db).1; files = []; costs = [] })).1

Reachable-IsHealthy_example : IsHealthy founded
Reachable-IsHealthy_example = Reachable-IsHealthy sample_config founded (
    answered (Routes.bootstrap [] (some (new_token (codes "b"), codes "alice", codes "pw"))) 5
      (started (codes "b") empty))

backoff_seconds-min_example :
    (backoff_seconds 4 second (60 * second) ≡ min (60 * second) (second * 2 ^ 3) / second)
    × (backoff_seconds 0 second (60 * second) ≡ 0)
backoff_seconds-min_example = backoff_seconds-min 3 second (60 * second) (omega arith) (omega arith)

-- A base that doubles past an int64 gives no window: it is negative.
backoff_wraps : (backoff_seconds 2 (2 ^ 62) second ≡ 2 ^ 64 - 9_223_372_036)
unfolding backoff_seconds
backoff_wraps = refl

handle_login-Pays_example : Pays sample_service (
    handle_login sample_config
      (codes "x")
      5
      (codes "ip")
      true
      (some (codes "alice", codes "pw"))
      sample_service)
handle_login-Pays_example =
    handle_login-Pays sample_config (codes "x") 5 (codes "ip") true
      (some (codes "alice", codes "pw")) sample_service

abbrev carol : Account
carol = record {
  id = 1;
  username = codes "carol";
  argon2_salt = hex_encode (replicate 16 7);
  argon2_params = format_params;
  argon2_hash = [];
  is_admin = false;
  disabled = false;
}

abbrev carol_db : Db
carol_db = record empty_db { accounts = carol ∷ []; next_account = 2 }

carol_found : account_by_username (codes "carol") carol_db ≡ ok carol
unfolding account_by_username find_where text_beq
carol_found = refl

nobody_found : account_by_username (codes "nobody") carol_db ≡ err not_found
unfolding account_by_username find_where text_beq
nobody_found = refl

salt_bytes : All IsByte (replicate 16 7)
salt_bytes = ground arith

login_costs_same_example :
    (login (codes "x") (codes "carol") (codes "pw") 5 100 carol_db).1
    ≡ (login (codes "x") (codes "nobody") (codes "pw") 5 100 carol_db).1
login_costs_same_example =
    login_costs_same (codes "x") (codes "carol") (codes "nobody") (codes "pw") (replicate 16 7) 5
      100 carol_db carol not_found carol_found nobody_found salt_bytes refl refl refl

parse_etag_version-etag_text_example : parse_etag_version (etag_text 42) ≡ some 42
parse_etag_version-etag_text_example = parse_etag_version-etag_text 42 (omega arith)
