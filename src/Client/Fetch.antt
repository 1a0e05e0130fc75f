-- ===== src/Client/Fetch.antt =====
-- internal/helper/engine.go: Fetch.
pub mod Accepts
pub mod Pins
pub mod Safety
use secret_git.Prelude.{
  Text, ℕ, Bool, true, false, some, List, [], ◌∷◌, if◌then◌else◌, ◌==◌, nat_eq, text_eq, option_eq,
  Result, ok, err, ltb,
}
use secret_git.Exec.{Exec, pure, lift, gets, ◌>>=◌, ◌>>◌}
use secret_git.Library.{Library}
use secret_git.Hex.{sha256_hex}
use secret_git.Manifest.{Manifest}
use secret_git.Roster.{Roster}
use secret_git.Keys.{decrypt}
use secret_git.LocalState.{State}
use secret_git.Store.{Store}
use secret_git.Git.{Git, update_ref}
use secret_git.Client.{
  Decoders, Engine, parse_manifest, verify_manifest_with_roster, on_server, on_git, load_state,
  save_state, check_keyfile_generation, refresh_pack_keys, import_packs, blob_bytes,
}
use secret_git.Errors.{Error, manifest_rollback, manifest_equivocation}
use secret_git.Client.Trust.{load_trusted_roster}

-- The freshness switch of Fetch: whether there is something to import.
unfoldable pub check_freshness : State → Manifest → Text → Result Error Bool
check_freshness st m new_hash =
    if st.version == 0
    then ok true
    else if ltb m.version st.version
    then err manifest_rollback
    else if m.version == st.version
    then (if new_hash == st.manifest_hash then ok false else err manifest_equivocation)
    else if m.prev_manifest_hash == some st.manifest_hash
    then ok true
    else err manifest_equivocation

-- The state that Fetch and Push save: the new pin.
unfoldable pub pin_manifest : State → ℕ → Text → State
pin_manifest st version hash = record st { version = version; manifest_hash = hash }

module _ {S G : Type 0} ⦃git : Git G⦄ where
  unfoldable pub update_refs : List (Text × Text) → Exec (Engine S G) (Unit {0})
  update_refs [] = pure tt
  update_refs ((ref, sha) ∷ refs) = do on_git (update_ref ref sha); update_refs refs

module _ {S G : Type 0} ⦃lib : Library⦄ ⦃store : Store S⦄ ⦃git : Git G⦄ where
  -- What Fetch does with a manifest that is fresh.
  unfoldable pub take_in : Manifest → Text → State → Exec (Engine S G) (Unit {0})
  take_in m new_hash st = do
    st' ← import_packs m.packs st
    update_refs m.refs
    save_state (pin_manifest st' m.version new_hash)

module _ {S G : Type 0} ⦃lib : Library⦄ ⦃dec : Decoders⦄ ⦃store : Store S⦄ ⦃git : Git G⦄ where
  -- Fetch, from the point where the manifest's blob is at hand.
  unfoldable pub fetch_manifest : Roster → Text → Exec (Engine S G) (Unit {0})
  fetch_manifest trusted blob = do
    identity ← gets (λ e. e.pack.identity)
    plain ← lift (decrypt blob identity)
    m ← lift (parse_manifest plain)
    lift (verify_manifest_with_roster m trusted)
    st ← load_state
    fresh ← lift (check_freshness st m (sha256_hex plain))
    if fresh then take_in m (sha256_hex plain) st else pure tt

  -- Fetch, from the point where the roster is trusted.
  unfoldable pub fetch_trusting : Roster → Exec (Engine S G) (Unit {0})
  fetch_trusting trusted = do
    check_keyfile_generation trusted
    (blob, version) ← on_server store.get_manifest
    if version == 0 then pure tt else fetch_manifest trusted (blob_bytes blob)

  unfoldable pub fetch : Exec (Engine S G) (Unit {0})
  fetch = do refresh_pack_keys; (trusted, _) ← load_trusted_roster; fetch_trusting trusted
