-- ===== src/Roster.antt =====
-- internal/roster/roster.go. The decoder of encoding/json is a parameter (Client).
use secret_git.Prelude.{
  Text, codes, ℕ, Bool, true, false, Option, none, some, List, [], ◌∷◌, ◌++◌, Result, ok, err,
  if◌then◌else◌, ◌==◌, nat_eq, text_eq, length,
}
use secret_git.Prelude.Results.{◌>>=◌}
use secret_git.Library.{Library}
use secret_git.Errors.{Error, bad_signature, bad_sig_encoding, bad_hex_key, bad_key_length}
use secret_git.Hex.{hex_encode, hex_decode, sha256_hex}
use secret_git.Jcs.{
  Value, null, str, num, arr, str_map, obj, Items, nil, item, end, field, canonical_json,
  units_less,
}

pub record Member : Type 0 where
  pub name : Text
  pub x25519_pub : Text
  pub ed25519_pub : Text

unfoldable pub decode_raw32 : Text → Result Error Text
unfolding hex_decode
decode_raw32 s = elim (hex_decode s) [
  | none ↦ err bad_hex_key
  | some b ↦ if length b == 32 then ok b else err bad_key_length
]

-- XPubBytes; EdPubBytes, EdPub
unfoldable pub x_pub_bytes : Member → Result Error Text
unfolding decode_raw32
x_pub_bytes m = decode_raw32 m.x25519_pub

unfoldable pub ed_pub : Member → Result Error Text
unfolding decode_raw32
ed_pub m = decode_raw32 m.ed25519_pub

pub record Roster : Type 0 where
  pub repo_id : Text
  pub version : ℕ
  pub prev_roster_hash : Option Text
  pub members : List Member
  pub author_key_id : Text
  pub repo_key_generation : ℕ
  pub sig : Text

-- Members with their fingerprints, sorted by fingerprint (Go compares strings by bytes).
unfoldable pub insert_by_fp : Text → Member → List (Text × Member) → List (Text × Member)
insert_by_fp fp m [] = (fp, m) ∷ []
insert_by_fp fp m ((gp, n) ∷ ms) =
    let rest = insert_by_fp fp m ms in
    if units_less gp fp then (gp, n) ∷ rest else (fp, m) ∷ (gp, n) ∷ ms

member_value : Member → Value
member_value m = str_map (
    (codes "name", m.name)
    ∷ (codes "x25519_pub", m.x25519_pub)
    ∷ (codes "ed25519_pub", m.ed25519_pub)
    ∷ [])

unfoldable pub member_items : List (Text × Member) → Items
unfolding member_value
member_items [] = nil
member_items ((fp, m) ∷ ms) = item (member_value m) (member_items ms)

module _ ⦃lib : Library⦄ where
  unfoldable pub fingerprint : Member → Result Error Text
  unfolding x_pub_bytes ed_pub
  fingerprint m = do x ← x_pub_bytes m; e ← ed_pub m; ok (hex_encode (lib.sha256 (x ++ e)))

  -- sortedMembers
  unfoldable pub sorted_members : List Member → Result Error (List (Text × Member))
  unfolding insert_by_fp
  sorted_members [] = ok []
  sorted_members (m ∷ ms) = do
    fp ← fingerprint m
    rest ← sorted_members ms
    ok (insert_by_fp fp m rest)

  unfoldable pub fields : Roster → Bool → Result Error Value
  unfolding sorted_members member_items
  fields r include_sig = do
    sorted ← sorted_members r.members
    ok (
        obj (
          field (codes "repo_id") (str r.repo_id) (
            field (codes "version") (num r.version) (
              field (codes "members") (arr (member_items sorted)) (
                field (codes "author_key_id") (str r.author_key_id) (
                  field (codes "repo_key_generation") (num r.repo_key_generation) (
                    field (codes "prev_roster_hash")
                      (elim r.prev_roster_hash [ none ↦ null | some h ↦ str h ])
                      (if include_sig then field (codes "sig") (str r.sig) end else end))))))))

  -- SigningBytes
  unfoldable pub signing_bytes : Roster → Result Error Text
  signing_bytes r = do v ← fields r false; canonical_json v

  -- CanonicalBytes, Marshal
  unfoldable pub canonical_bytes : Roster → Result Error Text
  canonical_bytes r = do v ← fields r true; canonical_json v

  -- Hash: over the bytes with the signature.
  unfoldable pub hash : Roster → Result Error Text
  hash r = do b ← canonical_bytes r; ok (sha256_hex b)

  -- BindingHash: over the bytes without the signature.
  unfoldable pub binding_hash : Roster → Result Error Text
  binding_hash r = do b ← signing_bytes r; ok (sha256_hex b)

  -- Sign: the signature stands in the roster that is returned.
  unfoldable pub sign : Text → Roster → Result Error Roster
  sign priv r = do
    signed ← signing_bytes r
    ok (record r { sig = lib.base64_encode (lib.ed25519_sign priv signed) })

  -- Verify
  unfoldable pub verify : Text → Roster → Result Error (Unit {0})
  verify pub_key r = elim (lib.base64_decode r.sig) [
    | none ↦ err bad_sig_encoding
    | some sig ↦ do
      signed ← signing_bytes r
      if lib.ed25519_verify pub_key signed sig then ok tt else err bad_signature
  ]

  -- Whether a member's keys decode and hash to the fingerprint.
  unfoldable pub has_fingerprint : Text → Member → Bool
  has_fingerprint fp m = elim (fingerprint m) [ ok got ↦ got == fp | err e ↦ false ]

  unfoldable pub find_member : Text → List Member → Option Member
  find_member fp [] = none
  find_member fp (m ∷ ms) = if has_fingerprint fp m then some m else find_member fp ms

  -- FindByFingerprint
  unfoldable pub find_by_fingerprint : Text → Roster → Option Member
  find_by_fingerprint fp r = find_member fp r.members
