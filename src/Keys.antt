-- ===== src/Keys.antt =====
-- internal/agekey, internal/identity and internal/crypto: the keys of a member and of a
-- repository, age encryption and the keyfile.
use secret_git.Prelude.{
  Text, codes, ℕ, zero, suc, ◌+◌, ◌*◌, ◌/◌, ◌%◌, ◌^◌, Bool, true, ◌&&◌, List, [], ◌∷◌, ◌++◌, ◌==◌,
  nat_eq, text_eq, Result, ok, guard, unless, or_err, length, take, drop,
}
use secret_git.Prelude.Results.{◌>>=◌, ◌>>◌}
use secret_git.Errors.{
  Error, age_parse_failed, x25519_failed, degenerate_seed, age_encrypt_failed, age_decrypt_failed,
  no_recipients, bad_repo_key_length, bad_payload_length,
}
use secret_git.Library.{Library}
use secret_git.Hex.{hex_encode}
use secret_git.Bech32

-- PackKeys
pub record PackKeys : Type 0 where
  pub identity : Text
  pub recipient : Text

pub record Identity : Type 0 where
  pub seed : Text
  pub scalar_x : Text
  pub pub_x : Text
  pub age_id : Text
  pub ed_priv : Text
  pub ed_pub : Text
  pub fpr : Text

-- isDegenerateSeed: every byte equals the first.
unfoldable pub all_equal : ℕ → Text → Bool
all_equal b [] = true
all_equal b (c ∷ cs) = c == b && all_equal b cs

unfoldable pub is_degenerate_seed : Text → Bool
unfolding all_equal
is_degenerate_seed [] = true
is_degenerate_seed (b ∷ bs) = all_equal b bs

-- binary.BigEndian.PutUint64 and Uint64, at any width.
unfoldable pub put_be : ℕ → ℕ → Text
put_be zero n = []
put_be (suc w) n = (n / 256 ^ w % 256) ∷ put_be w n

unfoldable pub get_be : ℕ → Text → ℕ
get_be acc [] = acc
get_be acc (b ∷ bs) = get_be (acc * 256 + b) bs

-- FingerprintHex
unfoldable pub fingerprint_hex : Identity → Text
unfolding hex_encode
fingerprint_hex id = hex_encode id.fpr

module _ ⦃lib : Library⦄ where
  unfoldable pub identity_from_scalar : Text → Result Error Text
  identity_from_scalar scalar = do
    s ← Bech32.encode (codes "AGE-SECRET-KEY-") scalar
    or_err (lib.age_parse_identity s) age_parse_failed

  unfoldable pub recipient_from_public : Text → Result Error Text
  recipient_from_public public = do
    s ← Bech32.encode (codes "age") public
    or_err (lib.age_parse_recipient s) age_parse_failed

  unfoldable pub public_from_scalar : Text → Result Error Text
  public_from_scalar scalar = or_err (lib.x25519_base scalar) x25519_failed

  -- FromSeed
  unfoldable pub from_seed : Text → Result Error Identity
  from_seed seed = do
    unless (is_degenerate_seed seed) degenerate_seed
    let scalar = lib.hkdf32 seed (codes "encgit/member-x25519/v1")
    age_id ← identity_from_scalar scalar
    pub_x ← public_from_scalar scalar
    let seed_ed = lib.hkdf32 seed (codes "encgit/member-ed25519/v1")
    let ed_pub = lib.ed25519_public seed_ed
    ok (record {
      seed = seed;
      scalar_x = scalar;
      pub_x = pub_x;
      age_id = age_id;
      ed_priv = seed_ed;
      ed_pub = ed_pub;
      fpr = lib.sha256 (pub_x ++ ed_pub);
    })

  -- DerivePackKeys
  unfoldable pub derive_pack_keys : Text → Text → Result Error PackKeys
  derive_pack_keys repo_key repo_id = do
    id ← identity_from_scalar (lib.hkdf32 repo_key (codes "encgit/pack-recipient/v1" ++ repo_id))
    ok (record { identity = id; recipient = lib.age_recipient id })

  -- Encrypt, with the bytes that age draws
  unfoldable pub encrypt : Text → Text → List Text → Result Error Text
  encrypt drawn plaintext recipients =
      or_err (lib.age_encrypt drawn recipients plaintext) age_encrypt_failed

  -- Decrypt
  unfoldable pub decrypt : Text → Text → Result Error Text
  decrypt blob identity = or_err (lib.age_decrypt identity blob) age_decrypt_failed

  -- WrapRepoKey
  unfoldable pub wrap_repo_key : Text → ℕ → Text → List Text → Result Error Text
  wrap_repo_key drawn generation repo_key recipients = do
    unless (length recipients == 0) no_recipients
    guard (length repo_key == 32) bad_repo_key_length
    encrypt drawn (put_be 8 generation ++ repo_key) recipients

  -- UnwrapRepoKey
  unfoldable pub unwrap_repo_key : Text → Text → Result Error (ℕ × Text)
  unwrap_repo_key keyfile identity = do
    payload ← decrypt keyfile identity
    guard (length payload == 40) bad_payload_length
    ok (get_be 0 (take 8 payload), drop 8 payload)
