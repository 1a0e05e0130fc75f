-- ===== src/Hex.antt =====
-- encoding/hex, and internal/util/hash.go.
use secret_git.Prelude.{
  Text, ℕ, ◌+◌, ◌-◌, ◌*◌, ◌/◌, ◌%◌, ◌<◌, ◌≡◌, refl, ◌&&◌, Option, none, some, [], ◌∷◌, arith, ltb,
  leb, if◌then◌else◌, All,
}
use secret_git.Library.{Library}

-- One digit of `hex.EncodeToString`.
unfoldable pub hex_digit : ℕ → ℕ
hex_digit d = if ltb d 10 then d + 48 else d + 87

unfoldable pub hex_encode : Text → Text
unfolding hex_digit
hex_encode [] = []
hex_encode (b ∷ bs) = hex_digit (b / 16) ∷ hex_digit (b % 16) ∷ hex_encode bs

-- The value of one digit: both cases are read.
unfoldable pub hex_value : ℕ → Option ℕ
hex_value c =
    if leb 48 c && leb c 57
    then some (c - 48)
    else if leb 97 c && leb c 102
    then some (c - 87)
    else if leb 65 c && leb c 70
    then some (c - 55)
    else none

abbrev join_byte : Option ℕ → Option ℕ → Option Text → Option Text
join_byte (some h) (some l) (some rest) = some ((h * 16 + l) ∷ rest)
join_byte _ _ _ = none

-- An odd number of digits, or a character that is no digit, is an error.
unfoldable pub hex_decode : Text → Option Text
unfolding hex_value
hex_decode [] = some []
hex_decode (c ∷ []) = none
hex_decode (c ∷ d ∷ rest) = join_byte (hex_value c) (hex_value d) (hex_decode rest)

abbrev pub IsByte : ℕ → Type 0
IsByte b = b < 256

pub hex_value-hex_digit : (d : ℕ) → d < 16 → hex_value (hex_digit d) ≡ some d
unfolding hex_value hex_digit
hex_value-hex_digit d h = ground arith

-- Decoding what was encoded gives the bytes back.
pub hex_decode-hex_encode : (bs : Text) → All IsByte bs → hex_decode (hex_encode bs) ≡ some bs
unfolding hex_encode hex_decode
hex_decode-hex_encode [] h = refl
hex_decode-hex_encode (b ∷ bs) h = ground (
  arith,
  hex_value-hex_digit (b / 16),
  hex_value-hex_digit (b % 16),
  hex_decode-hex_encode bs h.1,
)

-- util.SHA256Hex
unfoldable pub sha256_hex : ⦃lib : Library⦄ → Text → Text
sha256_hex ⦃lib⦄ b = hex_encode (lib.sha256 b)
