-- ===== src/Bech32/Examples.antt =====
-- Tests of the bech32 encoder, and the theorems about it at concrete inputs.
use secret_git.Prelude.{codes, ◌≡◌, refl, [], ok, text_beq}
use secret_git.Bech32.{encode}

-- A test vector: the encoding that BIP-173 lists for the empty data part.
encode_empty : encode (codes "a") [] ≡ ok (codes "a12uel5l")
unfolding encode text_beq
encode_empty = refl

encode_upper : encode (codes "A") [] ≡ ok (codes "A12UEL5L")
unfolding encode text_beq
encode_upper = refl
