-- ===== src/Client/Fetch/Accepts.antt =====
-- The checks that Fetch of internal/helper/engine.go makes of a manifest, and the pin.
use secret_git.Prelude.Results
use secret_git.Prelude.{
  Text, ℕ, true, Option, none, some, [], ◌==◌, arith, nat_eq, text_eq, option_eq, ◌≡◌, refl, ◌<◌,
  ◌∙◌, sym, Bool-cases, ◌⊎◌, inl, inr, ==_sound, ap, ok,
}
use secret_git.Library.{Library}
use secret_git.Hex.{sha256_hex}
use secret_git.Manifest
use secret_git.Manifest.{Manifest}
use secret_git.Roster.{Roster, Member, find_by_fingerprint, ed_pub, binding_hash}
use secret_git.LocalState.{State, load}
use secret_git.Client.{Decoders, Engine, parse_manifest, verify_manifest_with_roster}
use secret_git.Client.{verify_signer}
use secret_git.Client.Fetch.{check_freshness}

-- The manifest pin of a state.
abbrev pub manifest_pin : State → ℕ × Text
manifest_pin st = (st.version, st.manifest_hash)

-- Everything but the caches of keys and of packs.
abbrev pub pins : State → State
pins st = record st { imported_packs = []; repo_keys = [] }

abbrev pub pins_of : {S G : Type 0} → Engine S G → State
pins_of e = pins (load e.file)

module _ ⦃lib : Library⦄ where
  -- m names the binding hash of the roster, and verifies under the key of a member of it.
  pub record IsSigned (m : Manifest) (trusted : Roster) : Type 0 where
    pub bound : binding_hash trusted ≡ ok m.roster_hash
    pub signer : Member
    pub key : Text
    pub found : find_by_fingerprint m.pusher_key_id trusted ≡ some signer
    pub decodes : ed_pub signer ≡ ok key
    pub verifies : Manifest.verify key m ≡ ok tt

  IsSigned-by :
      (m : Manifest) (trusted : Roster) (found : Option Member)
      → binding_hash trusted ≡ ok m.roster_hash
      → find_by_fingerprint m.pusher_key_id trusted ≡ found
      → verify_signer m found ≡ ok tt
      → IsSigned m trusted
  unfolding verify_signer
  IsSigned-by m trusted none b f v = cc
  IsSigned-by m trusted (some signer) b f v =
      let (key, decodes, verifies) = Results.>>=-eq-ok (ed_pub signer) _ v in
      record {
        bound = b;
        signer = signer;
        key = key;
        found = f;
        decodes = decodes;
        verifies = verifies;
      }

  -- A manifest that passes the check against a roster is signed by a member of that roster, and
  -- names that roster's binding hash.
  pub verify_manifest_with_roster-IsSigned :
      (m : Manifest) (trusted : Roster)
      → verify_manifest_with_roster m trusted ≡ ok tt
      → IsSigned m trusted
  unfolding verify_manifest_with_roster
  verify_manifest_with_roster-IsSigned m trusted v =
      let (binding, b, w) = Results.>>=-eq-ok (binding_hash trusted) _ v in
      elim (Bool-cases (m.roster_hash == binding)) [
        | inl t ↦ IsSigned-by m trusted _ (b ∙ ap ok (sym (==_sound _ _ t))) refl (rw t at w)
        | inr f ↦ absurd (cc (rw f at w))
      ]

-- The first manifest of all, or a later version that names the pinned manifest as its
-- predecessor.
abbrev pub Follows : ℕ × Text → Manifest → Type 0
Follows pin m = (pin.0 ≡ 0) ⊎ ((pin.0 < m.version) × (m.prev_manifest_hash ≡ some pin.1))

pub check_freshness-Follows :
    (st : State) (m : Manifest) (hash : Text)
    → check_freshness st m hash ≡ ok true
    → Follows (manifest_pin st) m
unfolding check_freshness
check_freshness-Follows st m hash h =
    ground (arith, ==_sound m.prev_manifest_hash (some st.manifest_hash))

module _ ⦃lib : Library⦄ ⦃dec : Decoders⦄ where
  pub data Accepts (trusted : Roster) (st st' : State) : Type 0 where
    unchanged : manifest_pin st' ≡ manifest_pin st → Accepts trusted st st'
    accepted :
        (plain : Text) (m : Manifest)
        → parse_manifest plain ≡ ok m
        → IsSigned m trusted
        → Follows (manifest_pin st) m
        → manifest_pin st' ≡ (m.version, sha256_hex plain)
        → Accepts trusted st st'
