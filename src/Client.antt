-- ===== src/Client.antt =====
-- internal/helper/engine.go: the engine's state, its keys, and what it reads from the server.
pub mod Trust
pub mod Fetch
pub mod Push
pub mod Members
pub mod Setup
mod Frames
mod Examples
use secret_git.Prelude.Results
use secret_git.Prelude.{
  Text, ℕ, ◌||◌, Option, none, some, List, [], ◌∷◌, if◌then◌else◌, ◌==◌, nat_eq, text_eq, Result,
  ok, err, guard, or_err,
}
use secret_git.Errors.{
  Error, no_known_key, generation_zero, generation_mismatch, roster_hash_mismatch,
  signer_not_member, pack_id_mismatch, random_failed, bad_manifest_json, bad_roster_json,
}
use secret_git.Exec.{Exec, pure, raise, lift, gets, modify, attempt, ◌>>=◌, ◌>>◌}
use secret_git.Library.{Library}
use secret_git.Hex.{hex_encode, sha256_hex}
use secret_git.Manifest
use secret_git.Manifest.{Manifest}
use secret_git.Roster.{Roster, Member, find_by_fingerprint, ed_pub, binding_hash}
use secret_git.Keys.{Identity, PackKeys, derive_pack_keys, unwrap_repo_key, decrypt}
use secret_git.LocalState.{State, load, has_key, add_key, has_pack, add_pack}
use secret_git.Store.{Store}
use secret_git.Git.{Git, index_pack}

-- encoding/json on the wire structs of the two packages: unknown fields are refused.
pub record Decoders : Type 0 where
  pub manifest_json : Text → Option Manifest
  pub roster_json : Text → Option Roster

module _ ⦃dec : Decoders⦄ where
  -- manifest.Parse, roster.Parse
  unfoldable pub parse_manifest : Text → Result Error Manifest
  parse_manifest plain = or_err (dec.manifest_json plain) bad_manifest_json

  unfoldable pub parse_roster : Text → Result Error Roster
  parse_roster plain = or_err (dec.roster_json plain) bad_roster_json

-- The engine, with what it acts on: the server, the local state file, the git repository, and
-- the bytes that crypto/rand will give.
pub record Engine (S G : Type 0) : Type 0 where
  pub server : S
  pub file : Option State
  pub git_dir : G
  pub entropy : List Text
  pub member : Identity
  pub repo_id : Text
  pub repo_hex : Text
  pub repo_key : Text
  pub kf_generation : ℕ
  pub pack : PackKeys
  pub known_keys : List Text
  pub pack_cache : List (Text × PackKeys)

abbrev pub no_keys : PackKeys
no_keys = record { identity = []; recipient = [] }

-- current: the live manifest, decrypted and verified, or none.
pub record Current : Type 0 where
  pub manifest : Option Manifest
  pub version : ℕ
  pub hash : Text

abbrev pub no_current : Current
no_current = record { manifest = none; version = 0; hash = [] }

unfoldable pub lookup_pack : Text → List (Text × PackKeys) → Option PackKeys
lookup_pack h [] = none
lookup_pack h ((j, pk) ∷ rest) = if j == h then some pk else lookup_pack h rest

abbrev pub blob_bytes : Option Text → Text
blob_bytes none = []
blob_bytes (some b) = b

-- checkKeyfileGeneration, on the two generations
unfoldable pub check_generation : ℕ → ℕ → Result Error (Unit {0})
check_generation keyfile roster =
    if roster == 0 || keyfile == 0
    then err generation_zero
    else if keyfile == roster
    then ok tt
    else err generation_mismatch

module _ ⦃lib : Library⦄ where
  -- The end of verifyManifestWithRoster: the signer, if the roster has one, must have signed.
  unfoldable pub verify_signer : Manifest → Option Member → Result Error (Unit {0})
  verify_signer m none = err signer_not_member
  verify_signer m (some signer) =
      Results.◌>>=◌ (ed_pub signer) (λ pub_key. Manifest.verify pub_key m)

  unfoldable pub verify_manifest_with_roster : Manifest → Roster → Result Error (Unit {0})
  verify_manifest_with_roster m trusted = Results.◌>>=◌ (binding_hash trusted) (λ binding.
      if m.roster_hash == binding
      then verify_signer m (find_by_fingerprint m.pusher_key_id trusted)
      else err roster_hash_mismatch)

module _ {S G A : Type 0} where
  -- An operation of the server, and one of git.
  unfoldable pub on_server : Exec S A → Exec (Engine S G) A
  on_server m e = let (r, s) = m e.server in (r, record e { server = s })

  unfoldable pub on_git : Exec G A → Exec (Engine S G) A
  on_git m e = let (r, g) = m e.git_dir in (r, record e { git_dir = g })

abbrev pop_entropy : {S G : Type 0} → Engine S G → List Text → Result Error Text × Engine S G
pop_entropy e [] = (err random_failed, e)
pop_entropy e (d ∷ ds) = (ok d, record e { entropy = ds })

module _ {S G : Type 0} where
  -- rand.Read: the next bytes that are drawn.
  unfoldable pub draw : Exec (Engine S G) Text
  draw e = pop_entropy e e.entropy

  -- e.state.Load, e.state.Save
  unfoldable pub load_state : Exec (Engine S G) State
  load_state e = (ok (load e.file), e)

  unfoldable pub save_state : State → Exec (Engine S G) (Unit {0})
  save_state st e = (ok tt, record e { file = some st })

  -- checkKeyfileGeneration
  unfoldable pub check_keyfile_generation : Roster → Exec (Engine S G) (Unit {0})
  check_keyfile_generation trusted e =
      (check_generation e.kf_generation trusted.repo_key_generation, e)

-- `if out, err := ...; err == nil { return out }`, and else what follows.
unfoldable pub or_next : {S : Type 0} → Result Error Text → Exec S Text → Exec S Text
or_next (ok out) next = pure out
or_next (err x) next = next

module _ {S G : Type 0} ⦃lib : Library⦄ where
  -- packKeysFor: the cache is filled as keys are used.
  unfoldable pub pack_keys_for : Text → Exec (Engine S G) PackKeys
  pack_keys_for key e = elim (lookup_pack (hex_encode key) e.pack_cache) [
    | some pk ↦ (ok pk, e)
    | none ↦ elim (derive_pack_keys key e.repo_id) [
      | ok pk ↦ (ok pk, record e { pack_cache = (hex_encode key, pk) ∷ e.pack_cache })
      | err x ↦ (err x, e)
    ]
  ]

  -- The loop of decryptPack over the known keys: a key that fails is passed over.
  unfoldable pub decrypt_with : Text → List Text → Exec (Engine S G) Text
  decrypt_with blob [] = raise no_known_key
  decrypt_with blob (k ∷ ks) = do
    keys ← attempt (pack_keys_for k)
    or_next (Results.◌>>=◌ keys (λ pk. decrypt blob pk.identity)) (decrypt_with blob ks)

  -- decryptPack
  unfoldable pub decrypt_pack : Text → Exec (Engine S G) Text
  decrypt_pack blob = do
    first ← gets (λ e. decrypt blob e.pack.identity)
    known ← gets (λ e. e.known_keys)
    or_next first (decrypt_with blob known)

module _ {S G : Type 0} ⦃lib : Library⦄ ⦃store : Store S⦄ where
  -- The end of refreshPackKeys: the key is kept in the local cache.
  unfoldable pub remember_key : Text → PackKeys → Exec (Engine S G) (Unit {0})
  remember_key repo_key pack = do
    st ← load_state
    if has_key st repo_key then pure tt else save_state (add_key st repo_key)
    modify (λ e. record e {
      known_keys = (add_key st repo_key).repo_keys;
      pack_cache = (hex_encode repo_key, pack) ∷ [];
    })

  unfoldable pub refresh_pack_keys : Exec (Engine S G) (Unit {0})
  refresh_pack_keys = do
    keyfile ← on_server store.get_keyfile
    age_id ← gets (λ e. e.member.age_id)
    (generation, repo_key) ← lift (unwrap_repo_key keyfile age_id)
    repo_id ← gets (λ e. e.repo_id)
    pack ← lift (derive_pack_keys repo_key repo_id)
    modify (λ e. record e { repo_key = repo_key; kf_generation = generation; pack = pack })
    remember_key repo_key pack

  -- loadCurrent
  unfoldable pub load_current : ⦃dec : Decoders⦄ → Roster → Exec (Engine S G) Current
  load_current trusted = do
    (blob, version) ← on_server store.get_manifest
    if version == 0 then pure no_current else do
      identity ← gets (λ e. e.pack.identity)
      plain ← lift (decrypt (blob_bytes blob) identity)
      m ← lift (parse_manifest plain)
      lift (verify_manifest_with_roster m trusted)
      pure (record { manifest = some m; version = version; hash = sha256_hex plain })

module _ {S G : Type 0} ⦃lib : Library⦄ ⦃store : Store S⦄ ⦃git : Git G⦄ where
  -- importPack
  unfoldable pub import_pack : Text → Exec (Engine S G) (Unit {0})
  import_pack pack_id = do
    blob ← on_server (store.get_blob pack_id)
    lift (guard (sha256_hex blob == pack_id) pack_id_mismatch)
    raw ← decrypt_pack blob
    on_git (index_pack raw)

  -- The loops of Fetch and of ensureLocalObjects: packs that are recorded are passed over, and
  -- the others are recorded once they are imported.
  unfoldable pub import_packs : List Text → State → Exec (Engine S G) State
  import_packs [] st = pure st
  import_packs (p ∷ ps) st =
      let rest = import_packs ps in
      if has_pack st p then rest st else (do import_pack p; rest (add_pack st p))
