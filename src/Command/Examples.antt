-- ===== src/Command/Examples.antt =====
-- The theorems about the commands at concrete inputs.
use secret_git.LocalState.{contains}
use secret_git.Prelude.{
  List, ◌↔◌, ◌⊎◌, codes, ℕ, ◌≡◌, ◌≢◌, refl, true, false, some, [], ◌∷◌, ◌++◌, nat_eq, text_eq, ok,
  err, text_beq, zero, suc, arith, All, replicate,
}
use secret_git.Samples.{toy_library}
use secret_git.Hex.{IsByte}
use secret_git.Bech32.{encode}
use secret_git.Keys.{is_degenerate_seed, identity_from_scalar, public_from_scalar}
use secret_git.Store.Disk.{not_exist}
use secret_git.Store.LocalFs.MemoryDisk.{Disk, memory}
use secret_git.Store.HttpStore.{HttpStore, HttpRequest, exchange, trim_slashes}
use secret_git.Store.Ideal.{no_contents, contents_store}
use secret_git.Command.{RepoConfig, no_config, IsUtf8Config}
use secret_git.Command.Memory.{environment, environment_laws}
use secret_git.Command.Config.{
  global_config_path, repo_config_path, read_config_file, save_config, config_set, resolve_settings,
}
use secret_git.Command.Config.Precedence.{
  Resolves, IsOverlaid, resolve_settings-Resolves, read_config_file-config_set,
}
use secret_git.Command.Tokens.{
  token_key, load_tokens, save_token, is_http_url, http_client_for_ca_cert, resolve_ca_cert,
}
use secret_git.Command.Login.{LoginWire, server_login, expect_token, cmd_login}
use secret_git.Command.Login.Kept.{LoginLaws, IsLoggedIn, cmd_login-IsLoggedIn}
use secret_git.Exec.{◌>>=◌}
use secret_git.Server.Http.{strip_prefix}
use secret_git.Command.Seeds.{load_seed, identity_new}
use secret_git.Command.Seeds.Kept.{load_seed-identity_new}
use secret_git.Command.Genesis.{publish_genesis, on_local, on_remote}
use secret_git.Command.Genesis.Unclobbered.{IsKept, publish_genesis-IsKept}
use secret_git.Command.Branches.{choose_branch, fields_from, with_blanks}
use secret_git.Command.Branches.Chosen.{choose_branch_iff}

abbrev empty_disk : Disk
empty_disk p = err not_exist

abbrev given : RepoConfig
given = record no_config { store = codes "https://h"; repo_id = codes "ab"; seed = codes "/k/seed" }

given_utf8 : IsUtf8Config environment.is_utf8 given
given_utf8 = record { store = refl; repo_id = refl; seed = refl; ca_cert = refl }

resolve_settings-Resolves_example :
    Resolves given no_config no_config (resolve_settings environment given (codes "w") empty_disk)
unfolding global_config_path read_config_file repo_config_path text_beq
resolve_settings-Resolves_example =
    resolve_settings-Resolves environment given no_config no_config _ (codes "w") empty_disk refl
      refl (λ e. cc) refl

read_config_file-config_set_example :
    (new : RepoConfig) × (read_config_file environment
        (repo_config_path environment (codes "w"))
        (config_set environment false (codes "w") given empty_disk).1
      ≡ ok new)
    × IsOverlaid given no_config new
unfolding config_set save_config read_config_file repo_config_path text_beq
read_config_file-config_set_example =
    read_config_file-config_set environment environment_laws (codes "w") given no_config empty_disk
      given_utf8 refl refl

abbrev logged_in : Disk
logged_in = (save_token environment (codes "/k/seed") (codes "https://h/") (codes "t") empty_disk).1

-- A network that keeps the requests, with a server that gives every one the token t.
abbrev wire : LoginWire (List HttpRequest)
wire = record {
  client = λ pinned. record {
    accepts = λ q. true;
    send = λ q sent. (some (record { status = 200; etag = []; body = some (codes "t") }), q ∷ sent);
  };
  credentials_json = λ user password. user ++ (58 ∷ password);
  token_of_json = λ body. some body;
}

wire_laws : LoginLaws environment environment_laws wire
wire_laws = record { token_utf8 = λ body token e. refl }

cmd_login-IsLoggedIn_example :
    IsLoggedIn environment environment_laws wire
      (codes "/k/seed")
      []
      (codes "https://h/")
      (codes "u")
      (codes "p")
      (empty_disk, [])
      (cmd_login environment wire
        (codes "/k/seed")
        []
        (codes "https://h/")
        (codes "u")
        (some (codes "p"))
        (empty_disk, [])).1
unfolding cmd_login server_login exchange expect_token save_token load_tokens token_key trim_slashes
    text_beq http_client_for_ca_cert resolve_ca_cert is_http_url on_local on_remote ◌>>=◌
    strip_prefix
cmd_login-IsLoggedIn_example =
    cmd_login-IsLoggedIn environment environment_laws wire (codes "/k/seed") [] (codes "https://h/")
      (codes "u") (codes "p") empty_disk [] wire_laws refl refl

abbrev opened : HttpStore
opened = record { base = codes "https://h"; repo_id = codes "ab"; token = codes "t" }

sevens : (n : ℕ) → All IsByte (replicate n 7 ++ (8 ∷ []))
sevens zero = (omega arith, tt)
sevens (suc n) = (omega arith, sevens n)

load_seed-identity_new_example :
    load_seed environment
      (codes "/k/seed")
      (identity_new environment (codes "/k/seed") (replicate 31 7 ++ (8 ∷ [])) empty_disk).1
    ≡ (identity_new environment (codes "/k/seed") (replicate 31 7 ++ (8 ∷ [])) empty_disk).0
unfolding identity_new is_degenerate_seed identity_from_scalar encode text_beq public_from_scalar
load_seed-identity_new_example =
    load_seed-identity_new environment environment_laws (codes "/k/seed")
      (replicate 31 7 ++ (8 ∷ [])) _ empty_disk (sevens 31) refl refl

publish_genesis-IsKept_example :
    IsKept
      (record no_contents { roster = (some (codes "r"), 0); keyfile = some (codes "k") })
      no_contents
      (publish_genesis contents_store contents_store (
        record no_contents { roster = (some (codes "r"), 0); keyfile = some (codes "k") },
        no_contents,
      )).1.1
      (publish_genesis contents_store contents_store (
        record no_contents { roster = (some (codes "r"), 0); keyfile = some (codes "k") },
        no_contents,
      )).0
publish_genesis-IsKept_example =
    publish_genesis-IsKept
      (record no_contents { roster = (some (codes "r"), 0); keyfile = some (codes "k") })
      no_contents

choose_branch_iff_example : (choose_branch [] (codes "main" ∷ []) ≡ ok (codes "main")) ↔ (
    ((codes "" ≢ []) × (codes "" ≡ codes "main") × (contains [] (codes "main" ∷ []) ≡ true))
    ⊎ ((codes "" ≡ []) × (codes "main" ∷ [] ≡ codes "main" ∷ [])))
choose_branch_iff_example = choose_branch_iff [] (codes "main") (codes "main" ∷ [])

abbrev spaced : List ℕ
spaced = codes "main" ++ (0xc2 ∷ 0xa0 ∷ codes "dev")

spaced_fields : fields_from [] (with_blanks spaced) ≡ codes "main" ∷ codes "dev" ∷ []
unfolding fields_from with_blanks
spaced_fields = refl
