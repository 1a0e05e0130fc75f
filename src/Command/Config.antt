-- ===== src/Command/Config.antt =====
-- cmd/encgit/config.go: the configuration files, and the settings that a command resolves.
pub mod Precedence
use secret_git.Prelude.{
  Text, codes, ◌≡◌, refl, Bool, true, false, Option, none, some, List, [], ◌∷◌, ◌++◌, if◌then◌else◌,
  ◌==◌, ◌||◌, nat_eq, text_eq, Result, ok, err, or_err, guard,
}
use secret_git.Prelude.Results.{◌>>=◌}
use secret_git.Errors.{
  Error, bad_config, unknown_key, no_target, no_key, command_io_failed, missing_settings,
}
use secret_git.Exec.{Exec, continue}
use secret_git.Store.Disk.{FileError, not_exist, io_error}
use secret_git.Command.{RepoConfig, no_config, Environment}

unfoldable pub first_non_empty : List Text → Text
first_non_empty [] = []
first_non_empty (v ∷ vs) = let rest = first_non_empty vs in if v == [] then rest else v

-- One field of overlay.
abbrev pub over : Text → Text → Text
over dst src = if src == [] then dst else src

unfoldable pub overlay : RepoConfig → RepoConfig → RepoConfig
overlay dst src = record {
  store = over dst.store src.store;
  repo_id = over dst.repo_id src.repo_id;
  seed = over dst.seed src.seed;
  ca_cert = over dst.ca_cert src.ca_cert;
}

-- The settings, unless one that every command needs is empty.
abbrev pub required : RepoConfig → Result Error RepoConfig
required s = if s.store == [] || s.seed == [] || s.repo_id == [] then err missing_settings else ok s

module _ {D : Type 0} (env : Environment D) where
  unfoldable pub global_config_path : Result Error Text
  global_config_path =
      or_err
        (elim env.user_config_dir [
          | none ↦ none
          | some dir ↦ some (env.files.join (dir ∷ codes "encgit" ∷ codes "config.json" ∷ []))
        ])
        command_io_failed

  unfoldable pub repo_config_path : Text → Text
  repo_config_path git_dir = env.files.join (git_dir ∷ codes ".encgit" ∷ codes "config.json" ∷ [])

  -- The configuration in what a read of its file returned.
  abbrev pub config_in : Result FileError Text → Result Error RepoConfig
  config_in (ok content) = or_err (env.config_of_json content) bad_config
  config_in (err not_exist) = ok no_config
  config_in (err io_error) = err command_io_failed

  unfoldable pub read_config_file : Text → D → Result Error RepoConfig
  read_config_file path d = config_in (env.files.read_file path d)

  -- The part of loadConfig on the global file: an unknown directory is passed over.
  abbrev pub load_global : Result Error Text → D → Result Error RepoConfig
  load_global (err e) d = ok no_config
  load_global (ok path) d = do g ← read_config_file path d; ok (overlay no_config g)

  -- The part of loadConfig on the file of the repository.
  abbrev pub overlaid : RepoConfig → Result Error RepoConfig → Result Error RepoConfig
  overlaid cfg (ok r) = ok (overlay cfg r)
  overlaid cfg (err e) = err e

  unfoldable pub load_config : Text → D → Result Error RepoConfig
  unfolding read_config_file global_config_path repo_config_path overlay
  load_config git_dir d = do
    cfg ← load_global global_config_path d
    if git_dir == [] then ok cfg else overlaid cfg (read_config_file (repo_config_path git_dir) d)

  unfoldable pub save_config : Text → RepoConfig → Exec D (Unit {0})
  save_config path cfg d =
      let (made, d1) = env.files.mkdir_all (env.files.dir path) d in
      let (wrote, d2) = env.write_file path (env.config_json cfg ++ (10 ∷ [])) d1 in
      if made then (guard wrote command_io_failed, d2) else (err command_io_failed, d1)

  -- The file that config set writes.
  abbrev pub set_target : Bool → Text → Result Error Text
  set_target true git_dir = global_config_path
  set_target false [] = err no_target
  set_target false (c ∷ cs) = ok (repo_config_path (c ∷ cs))

  -- config set, on the flags that were parsed.
  unfoldable pub config_set : Bool → Text → RepoConfig → Exec D (Unit {0})
  unfolding save_config read_config_file overlay
  config_set global git_dir given d =
      continue (set_target global git_dir)
        (λ path d.
          continue (read_config_file path d) (λ cur d. save_config path (overlay cur given) d) d)
        d

  -- The value that config get prints of a configuration.
  unfoldable pub config_value : Text → RepoConfig → Result Error Text
  config_value key cfg =
      if key == codes "store"
      then ok cfg.store
      else if key == codes "repo_id" || key == codes "repo-id"
      then ok cfg.repo_id
      else if key == codes "seed"
      then ok cfg.seed
      else if key == codes "cacert"
      then ok cfg.ca_cert
      else if key == []
      then err no_key
      else err unknown_key

  -- config get
  unfoldable pub config_get : Text → Text → D → Result Error Text
  unfolding load_config config_value
  config_get git_dir key d = do cfg ← load_config git_dir d; config_value key cfg

  -- The settings that engineFlags.open resolves from its flags and the configuration.
  unfoldable pub resolve_settings : RepoConfig → Text → D → Result Error RepoConfig
  unfolding load_config first_non_empty
  resolve_settings flags git_dir d = do
    cfg ← load_config git_dir d
    required (record {
      store = first_non_empty (flags.store ∷ cfg.store ∷ []);
      repo_id = first_non_empty (flags.repo_id ∷ cfg.repo_id ∷ []);
      seed = first_non_empty (flags.seed ∷ cfg.seed ∷ []);
      ca_cert = first_non_empty (flags.ca_cert ∷ cfg.ca_cert ∷ []);
    })
