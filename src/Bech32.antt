-- ===== src/Bech32.antt =====
-- internal/bech32/bech32.go: the BIP-173 encoder. uint32 and byte arithmetic wraps as in Go.
mod Examples
use Prim.Native.Nat.{bit_and, bit_or, bit_xor}
use secret_git.Prelude.{
  Text, codes, ℕ, zero, suc, ◌+◌, ◌-◌, ◌*◌, ◌/◌, ◌%◌, ◌^◌, Bool, true, ◌&&◌, ◌||◌, not, List, [],
  ◌∷◌, ◌++◌, ltb, leb, if◌then◌else◌, ◌==◌, nat_eq, text_eq, Result, ok, err, map, guard, unless,
}
use secret_git.Prelude.Results.{◌>>=◌, ◌>>◌}
use secret_git.Errors.{Error, bech32_data_range, bech32_padding, bech32_bad_hrp, bech32_mixed_case}

abbrev charset : Text
charset = codes "qpzry9x8gf2tvdw0s3jn54khce6mua7l"

-- charset[p]
unfoldable pub char_at : Text → ℕ → ℕ
char_at [] p = 0
char_at (c ∷ cs) zero = c
char_at (c ∷ cs) (suc p) = char_at cs p

-- The generator that bit i of `top` adds.
unfoldable pub add_generators : ℕ → ℕ → List ℕ → ℕ
add_generators top chk [] = chk
add_generators top chk (g ∷ gs) =
    add_generators (top / 2) (if top % 2 == 1 then bit_xor chk g else chk) gs

abbrev generator : List ℕ
generator = 0x3b6a57b2 ∷ 0x26508e6d ∷ 0x1ea119fa ∷ 0x3d4233dd ∷ 0x2a1462b3 ∷ []

unfoldable pub polymod_step : ℕ → ℕ → ℕ
unfolding add_generators
polymod_step chk v =
    add_generators (chk / 2 ^ 25) (bit_xor ((chk % 2 ^ 25) * 32 % 2 ^ 32) v) generator

unfoldable pub polymod_from : ℕ → Text → ℕ
unfolding polymod_step
polymod_from chk [] = chk
polymod_from chk (v ∷ vs) = polymod_from (polymod_step chk v) vs

unfoldable pub polymod : Text → ℕ
unfolding polymod_from
polymod vs = polymod_from 1 vs

unfoldable pub lower : ℕ → ℕ
lower c = if leb 65 c && leb c 90 then c + 32 else c

unfoldable pub upper : ℕ → ℕ
upper c = if leb 97 c && leb c 122 then c - 32 else c

unfoldable pub to_lower : Text → Text
unfolding lower
to_lower [] = []
to_lower (c ∷ cs) = lower c ∷ to_lower cs

unfoldable pub to_upper : Text → Text
unfolding upper
to_upper [] = []
to_upper (c ∷ cs) = upper c ∷ to_upper cs

unfoldable pub hrp_expand : Text → Text
unfolding to_lower
hrp_expand hrp = let h = to_lower hrp in map (λ c. c / 32) h ++ (0 ∷ map (λ c. c % 32) h)

unfoldable pub create_checksum : Text → Text → Text
unfolding hrp_expand polymod
create_checksum hrp values =
    let residue =
      bit_xor (polymod ((hrp_expand hrp ++ values) ++ (0 ∷ 0 ∷ 0 ∷ 0 ∷ 0 ∷ 0 ∷ []))) 1 in
    map (λ p. residue / 2 ^ (5 * (5 - p)) % 256 % 32) (0 ∷ 1 ∷ 2 ∷ 3 ∷ 4 ∷ 5 ∷ [])

-- `for bits >= tobits`: the groups that are complete, and the bits that are left.
unfoldable pub emit : ℕ → ℕ → ℕ → ℕ → Text × ℕ
emit zero acc bits tobits = ([], bits)
emit (suc f) acc bits tobits =
    let rest = emit f acc (bits - tobits) tobits in
    if leb tobits bits
    then (bit_and (acc / 2 ^ (bits - tobits) % 256) ((2 ^ tobits - 1) % 256) ∷ rest.0, rest.1)
    else ([], bits)

-- The padding rules at the end of `convertBits`.
unfoldable pub finish_bits : Bool → ℕ → ℕ → ℕ → ℕ → Result Error Text
finish_bits pad acc bits frombits tobits =
    let last = bit_and (acc * 2 ^ (tobits - bits) % 2 ^ 32 % 256) ((2 ^ tobits - 1) % 256) in
    if pad
    then ok (if ltb 0 bits then last ∷ [] else [])
    else if leb frombits bits
    then err bech32_padding
    else if last == 0
    then ok []
    else err bech32_padding

unfoldable pub convert_from : ℕ → ℕ → Text → ℕ → ℕ → Bool → Result Error Text
unfolding emit finish_bits
convert_from acc bits [] frombits tobits pad = finish_bits pad acc bits frombits tobits
convert_from acc bits (value ∷ vs) frombits tobits pad =
    let acc' = bit_or (acc * 2 ^ frombits % 2 ^ 32) value in
    let bits' = (bits + frombits) % 256 in
    let out = emit bits' acc' bits' tobits in
    let rest = convert_from acc' out.1 vs frombits tobits pad in
    if value / 2 ^ frombits == 0
    then (do more ← rest; ok (out.0 ++ more))
    else err bech32_data_range

-- convertBits
unfoldable pub convert_bits : Text → ℕ → ℕ → Bool → Result Error Text
unfolding convert_from
convert_bits vs frombits tobits pad = convert_from 0 0 vs frombits tobits pad

unfoldable pub valid_hrp_chars : Text → Bool
valid_hrp_chars [] = true
valid_hrp_chars (c ∷ cs) = not (ltb c 33 || ltb 126 c) && valid_hrp_chars cs

-- Encode
unfoldable pub encode : Text → Text → Result Error Text
unfolding convert_bits valid_hrp_chars to_lower to_upper create_checksum char_at
encode hrp bytes = do
  values ← convert_bits bytes 8 5 true
  unless (hrp == []) bech32_bad_hrp
  guard (valid_hrp_chars hrp) bech32_bad_hrp
  unless (not (to_upper hrp == hrp) && not (to_lower hrp == hrp)) bech32_mixed_case
  let was_lower = to_lower hrp == hrp
  let lhrp = to_lower hrp
  let out =
      lhrp
      ++ (b'1'
          ∷ (map (char_at charset) values ++ map (char_at charset) (create_checksum lhrp values)))
  ok (if was_lower then out else to_upper out)
