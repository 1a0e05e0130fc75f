-- ===== src/Command/Config/Precedence.antt =====
-- What the settings of a command are: cmd/encgit/config.go and engineFlags.open of main.go.
use secret_git.Prelude.{
  Text, ◌≡◌, ◌≢◌, ◌⊎◌, refl, subst, Bool, true, false, List, [], ◌∷◌, ◌++◌, ◌==◌, nat_eq, text_eq,
  Result, ok, err, arith, inl, inr, Bool-cases, Option-cases, text_beq_iff, text_beq,
}
use secret_git.Prelude.Results.{guard-eq-ok}
use secret_git.Errors.{Error, command_io_failed, missing_settings}
use secret_git.Store.Disk.{FileError, not_exist, io_error}
use secret_git.Command.{RepoConfig, no_config, Environment, EnvironmentLaws, IsUtf8Config}
use secret_git.Command.Config.{
  first_non_empty, over, overlay, required, global_config_path, repo_config_path, config_in,
  read_config_file, load_config, save_config, config_set, resolve_settings,
}

-- The first of some texts that is not empty, and empty where all are.
pub data IsFirst : List Text → Text → Type 0 where
  nothing : IsFirst [] []
  found : {t : Text} {ts : List Text} → t ≢ [] → IsFirst (t ∷ ts) t
  passed : {v : Text} {ts : List Text} → IsFirst ts v → IsFirst ([] ∷ ts) v

-- Each setting is the first that is not empty of a flag, the repository's file and the global one.
pub record IsPreferred (flags r g s : RepoConfig) : Type 0 where
  pub store : IsFirst (flags.store ∷ r.store ∷ g.store ∷ []) s.store
  pub repo_id : IsFirst (flags.repo_id ∷ r.repo_id ∷ g.repo_id ∷ []) s.repo_id
  pub seed : IsFirst (flags.seed ∷ r.seed ∷ g.seed ∷ []) s.seed
  pub ca_cert : IsFirst (flags.ca_cert ∷ r.ca_cert ∷ g.ca_cert ∷ []) s.ca_cert

-- What a command gets for its settings.
pub data Resolves (flags r g : RepoConfig) : Result Error RepoConfig → Type 0 where
  resolved :
      {s : RepoConfig}
      → IsPreferred flags r g s
      → s.store ≢ []
      → s.seed ≢ []
      → s.repo_id ≢ []
      → Resolves flags r g (ok s)
  refused :
      {s : RepoConfig}
      → IsPreferred flags r g s
      → (s.store ≡ []) ⊎ ((s.seed ≡ []) ⊎ (s.repo_id ≡ []))
      → Resolves flags r g (err missing_settings)

first_non_empty-IsFirst : (ts : List Text) → IsFirst ts (first_non_empty ts)
unfolding first_non_empty text_beq
first_non_empty-IsFirst [] = nothing
first_non_empty-IsFirst ([] ∷ ts) = passed (first_non_empty-IsFirst ts)
first_non_empty-IsFirst ((c ∷ cs) ∷ ts) = found (λ e. cc)

first_over :
    (a r g : Text)
    → first_non_empty (a ∷ r ∷ g ∷ []) ≡ first_non_empty (a ∷ over (over [] g) r ∷ [])
unfolding first_non_empty
first_over a r g = ground arith

over-IsFirst : (dst src : Text) → IsFirst (src ∷ dst ∷ []) (over dst src)
unfolding text_beq
over-IsFirst [] [] = passed (passed nothing)
over-IsFirst (c ∷ cs) [] = passed (found (λ e. cc))
over-IsFirst dst (c ∷ cs) = found (λ e. cc)

preferred-IsFirst :
    (a r g : Text) → IsFirst (a ∷ r ∷ g ∷ []) (first_non_empty (a ∷ over (over [] g) r ∷ []))
preferred-IsFirst a r g =
    subst (λ x. IsFirst (a ∷ r ∷ g ∷ []) x) (first_over a r g)
      (first_non_empty-IsFirst (a ∷ r ∷ g ∷ []))

not_empty : (t : Text) → (t == []) ≡ false → t ≢ []
not_empty t f e = cc ((text_beq_iff t []).1 e, f)

required-Resolves :
    (flags r g s : RepoConfig) → IsPreferred flags r g s → Resolves flags r g (required s)
required-Resolves flags r g s p = elim (Bool-cases (s.store == [])) [
  | inl t ↦ rw t (refused p (inl ((text_beq_iff s.store []).0 t)))
  | inr f ↦ elim (Bool-cases (s.seed == [])) [
    | inl t ↦ rw (f, t) (refused p (inr (inl ((text_beq_iff s.seed []).0 t))))
    | inr f' ↦ elim (Bool-cases (s.repo_id == [])) [
      | inl t ↦ rw (f, f', t) (refused p (inr (inr ((text_beq_iff s.repo_id []).0 t))))
      | inr f'' ↦
          rw (f, f', f'')
            (resolved p (not_empty s.store f) (not_empty s.seed f') (not_empty s.repo_id f''))
    ]
  ]
]

module _ {D : Type 0} (env : Environment D) where
  -- Where both files are read, each setting is that of the first of the flag, the repository's
  -- file and the global file in which it is not empty, and none of the store, the seed and the
  -- repository is empty; or one of these is, and the command is refused for missing settings.
  pub resolve_settings-Resolves :
      (flags g r : RepoConfig) (path git_dir : Text) (d : D)
      → global_config_path env ≡ ok path
      → read_config_file env path d ≡ ok g
      → git_dir ≢ []
      → read_config_file env (repo_config_path env git_dir) d ≡ ok r
      → Resolves flags r g (resolve_settings env flags git_dir d)
  unfolding resolve_settings load_config overlay text_beq
  resolve_settings-Resolves flags g r path [] d p eg n er = absurd (n refl)
  resolve_settings-Resolves flags g r path (c ∷ cs) d p eg n er =
      rw (p, eg, er)
        (required-Resolves flags r g _ record {
          store = preferred-IsFirst flags.store r.store g.store;
          repo_id = preferred-IsFirst flags.repo_id r.repo_id g.repo_id;
          seed = preferred-IsFirst flags.seed r.seed g.seed;
          ca_cert = preferred-IsFirst flags.ca_cert r.ca_cert g.ca_cert;
        })

-- The settings given, each that is not empty, over the current ones.
pub record IsOverlaid (given cur new : RepoConfig) : Type 0 where
  pub store : IsFirst (given.store ∷ cur.store ∷ []) new.store
  pub repo_id : IsFirst (given.repo_id ∷ cur.repo_id ∷ []) new.repo_id
  pub seed : IsFirst (given.seed ∷ cur.seed ∷ []) new.seed
  pub ca_cert : IsFirst (given.ca_cert ∷ cur.ca_cert ∷ []) new.ca_cert

overlay-IsOverlaid : (given cur : RepoConfig) → IsOverlaid given cur (overlay cur given)
unfolding overlay
overlay-IsOverlaid given cur = record {
  store = over-IsFirst cur.store given.store;
  repo_id = over-IsFirst cur.repo_id given.repo_id;
  seed = over-IsFirst cur.seed given.seed;
  ca_cert = over-IsFirst cur.ca_cert given.ca_cert;
}

over_utf8 :
    (is_utf8 : Text → Bool) (dst src : Text)
    → is_utf8 dst ≡ true
    → is_utf8 src ≡ true
    → is_utf8 (over dst src) ≡ true
unfolding text_beq
over_utf8 is_utf8 dst [] h k = h
over_utf8 is_utf8 dst (c ∷ cs) h k = k

overlay-IsUtf8Config :
    (is_utf8 : Text → Bool) (dst src : RepoConfig)
    → IsUtf8Config is_utf8 dst
    → IsUtf8Config is_utf8 src
    → IsUtf8Config is_utf8 (overlay dst src)
unfolding overlay
overlay-IsUtf8Config is_utf8 dst src h k = record {
  store = over_utf8 is_utf8 dst.store src.store h.store k.store;
  repo_id = over_utf8 is_utf8 dst.repo_id src.repo_id h.repo_id k.repo_id;
  seed = over_utf8 is_utf8 dst.seed src.seed h.seed k.seed;
  ca_cert = over_utf8 is_utf8 dst.ca_cert src.ca_cert h.ca_cert k.ca_cert;
}

module _ {D : Type 0} (env : Environment D) (laws : EnvironmentLaws D env) where
  -- A configuration that is read was decoded, or is empty.
  config_in-IsUtf8Config :
      (r : Result FileError Text) (c : RepoConfig)
      → config_in env r ≡ ok c
      → IsUtf8Config env.is_utf8 c
  config_in-IsUtf8Config (ok content) c e = elim (Option-cases (env.config_of_json content)) [
    | inl n ↦ cc (rw n at e)
    | inr (c', s) ↦
        let same : c' ≡ c = cc (rw s at e) in
        subst (λ x. IsUtf8Config env.is_utf8 x) same (laws.config_utf8 content c' s)
  ]
  config_in-IsUtf8Config (err not_exist) c e =
      let same : no_config ≡ c = cc e in
      subst (λ x. IsUtf8Config env.is_utf8 x) same
        record {
          store = laws.utf8_empty;
          repo_id = laws.utf8_empty;
          seed = laws.utf8_empty;
          ca_cert = laws.utf8_empty;
        }
  config_in-IsUtf8Config (err io_error) c e = cc

  save_config-read :
      (path : Text) (c : RepoConfig) (d : D)
      → IsUtf8Config env.is_utf8 c
      → (save_config env path c d).0 ≡ ok tt
      → read_config_file env path (save_config env path c d).1 ≡ ok c
  unfolding save_config read_config_file
  save_config-read path c d u e =
      let d1 = (env.files.mkdir_all (env.files.dir path) d).1 in
      elim (Bool-cases (env.files.mkdir_all (env.files.dir path) d).0) [
        | inr f ↦ cc (rw f at e)
        | inl t ↦
            rw
              (
                t,
                laws.written path (env.config_json c ++ (10 ∷ [])) d1
                    (guard-eq-ok _ command_io_failed (rw t at e)),
                laws.config_decoded c u,
              )
              refl
      ]

  -- Where config set returns without an error for a repository and settings in UTF-8, its file
  -- reads as settings each of which is the one given, or where that is empty the one it had.
  pub read_config_file-config_set :
      (git_dir : Text) (given cur : RepoConfig) (d : D)
      → IsUtf8Config env.is_utf8 given
      → read_config_file env (repo_config_path env git_dir) d ≡ ok cur
      → (config_set env false git_dir given d).0 ≡ ok tt
      → (new : RepoConfig) × (read_config_file env
            (repo_config_path env git_dir)
            (config_set env false git_dir given d).1
          ≡ ok new)
        × IsOverlaid given cur new
  unfolding config_set read_config_file
  read_config_file-config_set [] given cur d u r e = cc
  read_config_file-config_set (c ∷ cs) given cur d u r e =
      let path = repo_config_path env (c ∷ cs) in
      let utf8 = config_in-IsUtf8Config (env.files.read_file path d) cur r in
      (
        overlay cur given,
        rw r (
            save_config-read path (overlay cur given) d
              (overlay-IsUtf8Config env.is_utf8 cur given utf8 u) (rw r at e)),
        overlay-IsOverlaid given cur,
      )
