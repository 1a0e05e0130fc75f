-- ===== src/Client/Members.antt =====
-- internal/helper/membership.go: AddMember, RemoveMember and FullRekey.
pub mod Gates
use secret_git.Prelude.Results
use secret_git.Prelude.{
  Text, ℕ, Bool, true, false, none, some, List, [], ◌∷◌, ◌++◌, if◌then◌else◌, ◌==◌, nat_eq, text_eq,
  Result, ok, err, guard, length,
}
use secret_git.Exec.{Exec, pure, lift, gets, modify, ◌>>=◌, ◌>>◌}
use secret_git.Library.{Library}
use secret_git.Hex.{hex_encode, sha256_hex}
use secret_git.Manifest.{Manifest}
use secret_git.Roster
use secret_git.Roster.{
  Roster, Member, find_by_fingerprint, ed_pub, binding_hash, fingerprint, has_fingerprint,
  x_pub_bytes,
}
use secret_git.Keys.{Identity, PackKeys, derive_pack_keys, wrap_repo_key, fingerprint_hex}
use secret_git.LocalState.{State, add_key, add_pack}
use secret_git.Store.{Store}
use secret_git.Client.{
  Decoders, Engine, Current, on_server, draw, load_state, save_state, check_keyfile_generation,
  decrypt_pack, refresh_pack_keys, load_current,
}
use secret_git.Errors.{
  Error, not_a_member, oob_fingerprint_required, oob_fingerprint_mismatch, already_member,
  remove_self, target_not_member, last_member, pack_id_mismatch,
}
use secret_git.Client.Trust.{load_trusted_roster, roster_recipients, pinned, pin_roster}
use secret_git.Client.Fetch.{pin_manifest}
use secret_git.Client.Push.{seal_manifest, encrypt_to, next_version, cur_packs}

module _ ⦃lib : Library⦄ where
  -- membersExcept
  unfoldable pub members_except : List Member → Text → List Member
  members_except [] fp = []
  members_except (m ∷ ms) fp =
      if has_fingerprint fp m then members_except ms fp else m ∷ members_except ms fp

  -- selfIsMember
  unfoldable pub self_is_member : Identity → Roster → Bool
  self_is_member id r = elim (find_by_fingerprint (fingerprint_hex id) r) [
    | none ↦ false
    | some _ ↦ true
  ]

  -- The gate of AddMember: the fingerprint that was verified out of band must be that of the
  -- keys, and new to the roster.
  unfoldable pub check_new_member : Roster → Member → Text → Result Error (Unit {0})
  check_new_member trusted new_member oob = Results.◌>>=◌ (fingerprint new_member) (λ fp.
      if oob == []
      then err oob_fingerprint_required
      else if oob == fp
      then elim (find_by_fingerprint fp trusted) [ none ↦ ok tt | some _ ↦ err already_member ]
      else err oob_fingerprint_mismatch)

  -- The gate of RemoveMember: the members that stay.
  unfoldable pub check_removal : Identity → Roster → Text → Result Error (List Member)
  check_removal id trusted target =
      if target == fingerprint_hex id
      then err remove_self
      else elim (find_by_fingerprint target trusted) [
        | none ↦ err target_not_member
        | some _ ↦
            if length (members_except trusted.members target) == 0
            then err last_member
            else ok (members_except trusted.members target)
      ]

module _ {S G : Type 0} ⦃lib : Library⦄ where
  -- random32
  unfoldable pub random32 : Exec (Engine S G) Text
  random32 = draw

  -- The successor of the trusted roster, signed by this member: its plaintext and binding hash.
  unfoldable pub sign_successor :
      Roster → Text → List Member → ℕ → Exec (Engine S G) (Roster × Text × Text)
  sign_successor trusted cur_hash members generation = do
    repo ← gets (λ e. e.repo_hex)
    id ← gets (λ e. e.member)
    new_r ← lift (
        Roster.sign id.ed_priv (record {
          repo_id = repo;
          version = next_version trusted.version;
          prev_roster_hash = some cur_hash;
          members = members;
          author_key_id = fingerprint_hex id;
          repo_key_generation = generation;
          sig = [];
        }))
    plain ← lift (Roster.canonical_bytes new_r)
    binding ← lift (binding_hash new_r)
    pure (new_r, plain, binding)

module _ {S G : Type 0} ⦃lib : Library⦄ ⦃store : Store S⦄ where
  -- The keyfile, for the members that may hold the key.
  unfoldable pub publish_keyfile : ℕ → Text → List Member → Exec (Engine S G) (Unit {0})
  publish_keyfile generation repo_key members = do
    recips ← lift (roster_recipients members)
    drawn ← draw
    keyfile ← lift (wrap_repo_key drawn generation repo_key recips)
    on_server (store.put_keyfile keyfile)

  -- The roster's blob, swapped in.
  unfoldable pub publish_roster : Roster → Roster → Text → Text → Exec (Engine S G) (Unit {0})
  publish_roster trusted new_r plain recipient = do
    blob ← encrypt_to plain (recipient ∷ [])
    on_server (store.cas_roster trusted.version blob new_r.version)

  -- A manifest with the refs of the current one, swapped in; the state with the new pin.
  unfoldable pub reissue :
      Manifest → Current → List Text → Text → Text → State → Exec (Engine S G) State
  reissue m cur packs binding recipient st = do
    repo ← gets (λ e. e.repo_hex)
    id ← gets (λ e. e.member)
    (plain, blob) ←
        seal_manifest
          (record {
            repo_id = repo;
            version = next_version cur.version;
            prev_manifest_hash = some cur.hash;
            refs = m.refs;
            packs = packs;
            pusher_key_id = fingerprint_hex id;
            roster_hash = binding;
            sig = [];
          })
          recipient
    on_server (store.cas_manifest cur.version blob (next_version cur.version))
    pure (pin_manifest st (next_version cur.version) (sha256_hex plain))

  unfoldable pub reissue_current : Current → Text → Text → State → Exec (Engine S G) State
  reissue_current cur binding recipient st = elim cur.manifest [
    | none ↦ pure st
    | some m ↦ reissue m cur m.packs binding recipient st
  ]

  -- One pack of FullRekey: read, checked, and uploaded under the new key.
  unfoldable pub rekey_pack : Text → Text → Exec (Engine S G) Text
  rekey_pack recipient old_id = do
    blob ← on_server (store.get_blob old_id)
    lift (guard (sha256_hex blob == old_id) pack_id_mismatch)
    raw ← decrypt_pack blob
    nblob ← encrypt_to raw (recipient ∷ [])
    on_server (store.put_blob (sha256_hex nblob) nblob)
    pure (sha256_hex nblob)

  unfoldable pub rekey_packs : Text → List Text → State → Exec (Engine S G) (List Text × State)
  rekey_packs recipient [] st = pure ([], st)
  rekey_packs recipient (old ∷ olds) st = do
    new ← rekey_pack recipient old
    (news, st') ← rekey_packs recipient olds (add_pack st new)
    pure (new ∷ news, st')

  unfoldable pub rekey_manifest : Current → Text → Text → State → Exec (Engine S G) State
  rekey_manifest cur binding recipient st = elim cur.manifest [
    | none ↦ pure st
    | some m ↦ (do
      (news, st') ← rekey_packs recipient m.packs st
      reissue m cur news binding recipient st')
  ]

  unfoldable pub delete_blobs : List Text → Exec (Engine S G) (Unit {0})
  delete_blobs [] = pure tt
  delete_blobs (id ∷ ids) = do on_server (store.delete_blob id); delete_blobs ids

module _ {S G : Type 0} where
  unfoldable pub adopt_key : Text → PackKeys → Exec (Engine S G) (Unit {0})
  adopt_key repo_key pack = modify (λ e. record e { repo_key = repo_key; pack = pack })

module _ {S G : Type 0} ⦃lib : Library⦄ ⦃dec : Decoders⦄ ⦃store : Store S⦄ where
  -- What the three operations begin with: the trusted roster, with its hash.
  unfoldable pub begin_change : Exec (Engine S G) (Roster × Text)
  begin_change = do
    refresh_pack_keys
    (trusted, cur_hash) ← load_trusted_roster
    check_keyfile_generation trusted
    id ← gets (λ e. e.member)
    lift (guard (self_is_member id trusted) not_a_member)
    pure (trusted, cur_hash)

  -- republishManifest
  unfoldable pub republish_manifest : Roster → Text → Text → State → Exec (Engine S G) State
  republish_manifest old_trusted binding recipient st = do
    cur ← load_current old_trusted
    reissue_current cur binding recipient st

  unfoldable pub add_member : Text → Text → Text → Text → Exec (Engine S G) (Unit {0})
  add_member name xpub edpub oob = do
    (trusted, cur_hash) ← begin_change
    let new_member : Member = record {
      name = name;
      x25519_pub = hex_encode xpub;
      ed25519_pub = hex_encode edpub;
    }
    lift (check_new_member trusted new_member oob)
    let new_members = trusted.members ++ (new_member ∷ [])
    (new_r, plain, binding) ←
        sign_successor trusted cur_hash new_members trusted.repo_key_generation
    keys ← gets (λ e. e.pack)
    publish_roster trusted new_r plain keys.recipient
    repo_key ← gets (λ e. e.repo_key)
    publish_keyfile trusted.repo_key_generation repo_key new_members
    st ← load_state
    st' ← republish_manifest trusted binding keys.recipient st
    pin_roster st' new_r plain (sha256_hex plain)

  unfoldable pub remove_member : Text → Exec (Engine S G) (Unit {0})
  remove_member target = do
    (trusted, cur_hash) ← begin_change
    id ← gets (λ e. e.member)
    remaining ← lift (check_removal id trusted target)
    new_key ← random32
    repo_id ← gets (λ e. e.repo_id)
    new_pack ← lift (derive_pack_keys new_key repo_id)
    let new_gen = next_version trusted.repo_key_generation
    (new_r, plain, binding) ← sign_successor trusted cur_hash remaining new_gen
    publish_roster trusted new_r plain new_pack.recipient
    publish_keyfile new_gen new_key remaining
    st ← load_state
    st' ← republish_manifest trusted binding new_pack.recipient st
    adopt_key new_key new_pack
    pin_roster (add_key st' new_key) new_r plain (sha256_hex plain)

  unfoldable pub full_rekey : Exec (Engine S G) (Unit {0})
  full_rekey = do
    (trusted, cur_hash) ← begin_change
    cur ← load_current trusted
    new_key ← random32
    repo_id ← gets (λ e. e.repo_id)
    new_pack ← lift (derive_pack_keys new_key repo_id)
    let new_gen = next_version trusted.repo_key_generation
    (new_r, plain, binding) ← sign_successor trusted cur_hash trusted.members new_gen
    st ← load_state
    st' ← rekey_manifest cur binding new_pack.recipient st
    publish_keyfile new_gen new_key trusted.members
    publish_roster trusted new_r plain new_pack.recipient
    delete_blobs (cur_packs cur)
    adopt_key new_key new_pack
    save_state (pinned (add_key st' new_key) new_r plain (sha256_hex plain))
