-- ===== src/Client/Setup.antt =====
-- internal/helper/engine.go: Init and Open.
use secret_git.Prelude.{Text, Option, none, List, [], ◌∷◌, nat_eq, text_eq, or_err}
use secret_git.Exec.{Exec, pure, lift, gets, modify, ◌>>=◌, ◌>>◌}
use secret_git.Library.{Library}
use secret_git.Hex.{hex_encode, hex_decode}
use secret_git.Roster
use secret_git.Roster.{
  Roster, Member, find_by_fingerprint, ed_pub, binding_hash, fingerprint, has_fingerprint,
  x_pub_bytes,
}
use secret_git.Keys.{Identity, derive_pack_keys, wrap_repo_key, fingerprint_hex}
use secret_git.LocalState.{State}
use secret_git.Store.{Store}
use secret_git.Client.{Engine, on_server, draw, refresh_pack_keys}
use secret_git.Errors.{bad_repo_id}
use secret_git.Client.{no_keys}
use secret_git.Client.Trust.{member_from_identity}
use secret_git.Client.Push.{encrypt_to}

-- The engine of a client that has read nothing yet.
abbrev pub unopened :
    {S G : Type 0} → S → Option State → G → List Text → Identity → Text → Engine S G
unopened server file git_dir entropy member repo_id = record {
  server = server;
  file = file;
  git_dir = git_dir;
  entropy = entropy;
  member = member;
  repo_id = repo_id;
  repo_hex = hex_encode repo_id;
  repo_key = [];
  kf_generation = 0;
  pack = no_keys;
  known_keys = [];
  pack_cache = [];
}

module _ {S G : Type 0} ⦃lib : Library⦄ ⦃store : Store S⦄ where
  -- Open: the engine, once its keys are read. It acts on an engine in which only the world
  -- and the member are set.
  unfoldable pub open_engine : Text → Exec (Engine S G) (Unit {0})
  open_engine repo_id_hex = do
    repo_id ← lift (or_err (hex_decode repo_id_hex) bad_repo_id)
    modify (λ e. unopened e.server e.file e.git_dir e.entropy e.member repo_id)
    refresh_pack_keys

  -- Init: the founder is the member of the engine that it acts on. It returns the new repo_id.
  unfoldable pub init : Text → Exec (Engine S G) Text
  init founder_name = do
    founder ← gets (λ e. e.member)
    repo_id ← draw
    repo_key ← draw
    drawn ← draw
    keyfile ← lift (wrap_repo_key drawn 1 repo_key (lib.age_recipient founder.age_id ∷ []))
    on_server (store.put_keyfile keyfile)
    pack ← lift (derive_pack_keys repo_key repo_id)
    gen ← lift (
        Roster.sign founder.ed_priv (record {
          repo_id = hex_encode repo_id;
          version = 0;
          prev_roster_hash = none;
          members = member_from_identity founder founder_name ∷ [];
          author_key_id = fingerprint_hex founder;
          repo_key_generation = 1;
          sig = [];
        }))
    plain ← lift (Roster.canonical_bytes gen)
    blob ← encrypt_to plain (pack.recipient ∷ [])
    on_server (store.cas_roster 0 blob 0)
    pure (hex_encode repo_id)
