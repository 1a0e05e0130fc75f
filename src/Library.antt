-- ===== src/Library.antt =====
-- What the program takes from code outside the repository, and from the operating system: SHA-256,
-- HKDF, Ed25519, X25519, age, base64 and argon2id. Every definition that
-- uses them takes one record of these functions. Where a function draws randomness (age's file
-- key, crypto/rand), the drawn bytes are an argument.
use secret_git.Prelude.{ℕ, Text, Option, Bool, List}

pub record Library : Type 0 where
  -- crypto/sha256: Sum256
  pub sha256 : Text → Text
  -- golang.org/x/crypto/hkdf with SHA-256 and no salt: the first 32 bytes for a key and an info
  pub hkdf32 : Text → Text → Text
  -- crypto/ed25519: the public key of a seed, Sign, Verify
  pub ed25519_public : Text → Text
  pub ed25519_sign : Text → Text → Text
  pub ed25519_verify : Text → Text → Text → Bool
  -- golang.org/x/crypto/curve25519: X25519(scalar, Basepoint)
  pub x25519_base : Text → Option Text
  -- filippo.io/age: ParseX25519Identity, Identity.Recipient, ParseX25519Recipient
  pub age_parse_identity : Text → Option Text
  pub age_recipient : Text → Text
  pub age_parse_recipient : Text → Option Text
  -- filippo.io/age: Encrypt (drawn bytes, recipients, plaintext), Decrypt (identity, blob)
  pub age_encrypt : Text → List Text → Text → Option Text
  pub age_decrypt : Text → Text → Option Text
  -- encoding/base64: StdEncoding
  pub base64_encode : Text → Text
  pub base64_decode : Text → Option Text
  -- encoding/base64: RawURLEncoding
  pub base64_raw_url : Text → Text
  -- golang.org/x/crypto/argon2: IDKey (password, salt, time, memory, threads, key length)
  pub argon2id : Text → Text → ℕ → ℕ → ℕ → ℕ → Text
