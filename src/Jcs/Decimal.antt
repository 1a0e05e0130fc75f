-- ===== src/Jcs/Decimal.antt =====
-- strconv.FormatUint in base ten.
use secret_git.Prelude.{Text, ℕ, zero, suc, ◌+◌, ◌/◌, ◌%◌, true, false, [], ◌∷◌, ◌++◌, ltb}

-- The digits of a number; the fuel exceeds the number of digits.
unfoldable pub decimal_fuel : ℕ → ℕ → Text
decimal_fuel zero n = []
decimal_fuel (suc f) n = elim (ltb n 10) [
  | true ↦ (n + 48) ∷ []
  | false ↦ decimal_fuel f (n / 10) ++ ((n % 10 + 48) ∷ [])
]

unfoldable pub decimal : ℕ → Text
unfolding decimal_fuel
decimal n = decimal_fuel (suc n) n
