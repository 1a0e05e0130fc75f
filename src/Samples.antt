-- ===== src/Samples.antt =====
-- A toy cryptography for the examples: a hash is the first four bytes, encryption does nothing, a
-- signature is the key in front of the message.
use secret_git.Prelude.{◌++◌, ◌==◌, text_eq, some, take}
use secret_git.Library.{Library}

instance abbrev pub toy_library : Library
toy_library = record {
  sha256 = λ t. take 4 t;
  hkdf32 = λ k info. take 32 (k ++ info);
  ed25519_public = λ seed. seed;
  ed25519_sign = λ priv msg. priv ++ msg;
  ed25519_verify = λ key msg sig. sig == (key ++ msg);
  x25519_base = λ s. some s;
  age_parse_identity = λ s. some s;
  age_recipient = λ s. s;
  age_parse_recipient = λ s. some s;
  age_encrypt = λ drawn rs t. some t;
  age_decrypt = λ id t. some t;
  base64_encode = λ t. t;
  base64_decode = λ t. some t;
  base64_raw_url = λ t. t;
  argon2id = λ password salt t m p k. password ++ salt;
}
