-- ===== src/Manifest.antt =====
-- internal/manifest/manifest.go. `refs` is a map, as the list of its entries; the decoder of
-- encoding/json is a parameter (Client).
use secret_git.Prelude.{
  Text, codes, ℕ, Bool, true, false, Option, none, some, List, Result, ok, err, if◌then◌else◌,
}
use secret_git.Prelude.Results.{◌>>=◌}
use secret_git.Library.{Library}
use secret_git.Errors.{Error, bad_signature, bad_sig_encoding}
use secret_git.Hex.{sha256_hex}
use secret_git.Jcs.{Value, null, str, num, strs, str_map, obj, Fields, end, field, canonical_json}

pub record Manifest : Type 0 where
  pub repo_id : Text
  pub version : ℕ
  pub prev_manifest_hash : Option Text
  pub refs : List (Text × Text)
  pub packs : List Text
  pub pusher_key_id : Text
  pub roster_hash : Text
  pub sig : Text

-- A hash pointer, or `null`.
abbrev pub str_or_null : Option Text → Value
str_or_null none = null
str_or_null (some s) = str s

unfoldable pub fields : Manifest → Bool → Value
fields m include_sig =
    let signed : Fields = field (codes "repo_id") (str m.repo_id) (
      field (codes "version") (num m.version) (
        field (codes "refs") (str_map m.refs) (
          field (codes "packs") (strs m.packs) (
            field (codes "pusher_key_id") (str m.pusher_key_id) (
              field (codes "roster_hash") (str m.roster_hash) (
                field (codes "prev_manifest_hash") (str_or_null m.prev_manifest_hash)
                  (if include_sig then field (codes "sig") (str m.sig) end else end))))))) in
    obj signed

-- SigningBytes
unfoldable pub signing_bytes : Manifest → Result Error Text
unfolding fields canonical_json
signing_bytes m = canonical_json (fields m false)

-- CanonicalBytes, Marshal
unfoldable pub canonical_bytes : Manifest → Result Error Text
unfolding fields canonical_json
canonical_bytes m = canonical_json (fields m true)

module _ ⦃lib : Library⦄ where
  -- Hash
  unfoldable pub hash : Manifest → Result Error Text
  unfolding sha256_hex canonical_bytes
  hash m = do b ← canonical_bytes m; ok (sha256_hex b)

  -- Sign: the signature stands in the manifest that is returned.
  unfoldable pub sign : Text → Manifest → Result Error Manifest
  sign priv m = do
    signed ← signing_bytes m
    ok (record m { sig = lib.base64_encode (lib.ed25519_sign priv signed) })

  -- Verify
  unfoldable pub verify : Text → Manifest → Result Error (Unit {0})
  verify pub_key m = elim (lib.base64_decode m.sig) [
    | none ↦ err bad_sig_encoding
    | some sig ↦ do
      signed ← signing_bytes m
      if lib.ed25519_verify pub_key signed sig then ok tt else err bad_signature
  ]
