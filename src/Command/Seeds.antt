-- ===== src/Command/Seeds.antt =====
-- cmd/encgit/main.go: the seed file, keys in hexadecimal, and what engineFlags.open opens.
pub mod Kept
use secret_git.Prelude.{
  Text, codes, ℕ, Bool, true, false, not, Option, none, some, List, [], ◌∷◌, ◌++◌, if◌then◌else◌,
  ◌==◌, nat_eq, text_eq, Result, ok, err, or_err, guard, length,
}
use secret_git.Prelude.Results.{◌>>=◌, ◌>>◌}
use secret_git.Library.{Library}
use secret_git.Errors.{Error, bad_seed, seed_exists, bad_key_size, command_io_failed}
use secret_git.Exec.{Exec, continue}
use secret_git.Split.{trim_space}
use secret_git.Hex.{hex_decode, hex_encode}
use secret_git.Keys.{Identity, from_seed}
use secret_git.Store.Disk.{FileError}
use secret_git.Command.{RepoConfig, Environment}
use secret_git.Command.Config.{resolve_settings}
use secret_git.Command.Tokens.{Opened, open_any_store}

unfoldable pub parse_32_hex : Text → Result Error Text
unfolding hex_decode
parse_32_hex s = do
  b ← or_err (hex_decode s) bad_key_size
  guard (length b == 32) bad_key_size
  ok b

-- What engineFlags.open gives to helper.Open.
pub record Ready : Type 0 where
  pub git_dir : Text
  pub store : Opened
  pub state_path : Text
  pub member : Identity
  pub repo_id : Text

module _ ⦃lib : Library⦄ where
  -- The member whose seed is in what a read of the file returned.
  unfoldable pub seed_in : Result FileError Text → Result Error Identity
  unfolding hex_decode trim_space from_seed
  seed_in (err e) = err command_io_failed
  seed_in (ok content) = do
    raw ← or_err (hex_decode (trim_space content)) bad_seed
    guard (length raw == 32) bad_seed
    from_seed raw

  module _ {D : Type 0} (env : Environment D) where
    unfoldable pub load_seed : Text → D → Result Error Identity
    unfolding seed_in
    load_seed path d = seed_in (env.files.read_file path d)

    -- identity new, on the seed that was drawn: the file is written before the member is derived.
    unfoldable pub identity_new : Text → Text → Exec D Identity
    unfolding hex_encode from_seed
    identity_new path seed d =
        let (wrote, d') = env.write_file path (hex_encode seed ++ (10 ∷ [])) d in
        elim (env.files.stat path d) [
          | ok _ ↦ (err seed_exists, d)
          | err _ ↦ if wrote then (from_seed seed, d') else (err command_io_failed, d')
        ]

    -- The state file, beside the repository where no flag names one.
    unfoldable pub state_path_of : Text → Text → Text
    state_path_of git_dir state_path =
        if state_path == []
        then env.files.join (git_dir ∷ codes ".encgit" ∷ codes "state.json" ∷ [])
        else state_path

    -- engineFlags.open, before helper.Open.
    unfoldable pub open_command : RepoConfig → Text → Text → Exec D Ready
    unfolding resolve_settings load_seed open_any_store state_path_of
    open_command flags git_dir state_path d =
        continue (resolve_settings env flags git_dir d)
          (λ s d.
            continue (load_seed s.seed d)
              (λ member d.
                let (r, d') = open_any_store env s.store s.repo_id s.seed s.ca_cert d in
                continue r
                  (λ store d. (
                    ok (record {
                      git_dir = git_dir;
                      store = store;
                      state_path = state_path_of git_dir state_path;
                      member = member;
                      repo_id = s.repo_id;
                    }),
                    d,
                  ))
                  d')
              d)
          d
