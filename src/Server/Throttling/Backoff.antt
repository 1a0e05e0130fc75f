-- ===== src/Server/Throttling/Backoff.antt =====
-- internal/server/throttle.go: the length of the backoff.
use secret_git.Prelude.{
  ℕ, zero, suc, ◌*◌, ◌/◌, ◌^◌, ◌<◌, ◌≤◌, ◌≡◌, if◌then◌else◌, nat_eq, text_eq, option_eq, ltb, arith,
  refl, ap, ◌∙◌, Bool-cases, inl, inr,
}
use secret_git.Server.Throttling.{less, wrap, seconds_of, double_until, backoff_seconds, second}

abbrev pub min : ℕ → ℕ → ℕ
min a b = if ltb a b then a else b

-- Below 2 ^ 62 a doubling does not wrap.
wrap-double : (b : ℕ) → b < 2 ^ 62 → wrap (b * 2) ≡ b * 2
wrap-double b h = omega arith

less-eq-ltb : (a b : ℕ) → a < 2 ^ 63 → b < 2 ^ 63 → less a b ≡ ltb a b
less-eq-ltb a b h k = ground arith

less_doubled : (b max : ℕ) → b < 2 ^ 62 → max ≤ 2 ^ 62 → less (wrap (b * 2)) max ≡ ltb (b * 2) max
less_doubled b max h k =
    ap (λ (n : ℕ). less n max) (wrap-double b h)
    ∙ less-eq-ltb (b * 2) max (omega arith) (omega arith)

pub pow_pos : (k : ℕ) → 0 < 2 ^ k
pow_pos zero = omega arith
pow_pos (suc k) = omega (arith, pow_pos k)

double_pow : (b k : ℕ) → (b * 2) * 2 ^ k ≡ b * 2 ^ suc k
double_pow b k = grind arith

le_double_pow : (b k : ℕ) → b * 2 ≤ b * 2 ^ suc k
le_double_pow b k = grind (arith, pow_pos k)

-- The loop computes the power, as far as the maximum.
double_until-min :
    (k b max : ℕ) → b < 2 ^ 62 → max ≤ 2 ^ 62 → min max (double_until k b max) ≡ min max (b * 2 ^ k)
unfolding double_until
double_until-min zero b max h k = ground arith
double_until-min (suc n) b max h k = elim (Bool-cases (ltb (b * 2) max)) [
  | inl t ↦
      rw (less_doubled b max h k ∙ t, double_until, wrap-double b h)
        (double_until-min n (b * 2) max (ground arith) k ∙ ap (min max) (double_pow b n))
  | inr f ↦ rw (less_doubled b max h k ∙ f, double_until) (ground (arith, le_double_pow b n))
]

double_until-fits : (k b max : ℕ) → b < 2 ^ 62 → max ≤ 2 ^ 62 → double_until k b max < 2 ^ 63
unfolding double_until
double_until-fits zero b max h k = omega arith
double_until-fits (suc n) b max h k = elim (Bool-cases (ltb (b * 2) max)) [
  | inl t ↦
      rw (less_doubled b max h k ∙ t, double_until, wrap-double b h)
        (double_until-fits n (b * 2) max (ground arith) k)
  | inr f ↦ rw (less_doubled b max h k ∙ f, double_until) (omega arith)
]

seconds_of-fits : (b : ℕ) → b < 2 ^ 63 → seconds_of b ≡ b / second
seconds_of-fits b h = ground arith

-- Where the base is below 2 ^ 62 nanoseconds and the maximum at most that, the backoff after k + 1
-- failures is the base times 2 ^ k, or the maximum if that is less, in whole seconds; without a
-- failure it is 0.
pub backoff_seconds-min :
    (k base max : ℕ)
    → base < 2 ^ 62
    → max ≤ 2 ^ 62
    → (backoff_seconds (suc k) base max ≡ min max (base * 2 ^ k) / second)
      × (backoff_seconds 0 base max ≡ 0)
unfolding backoff_seconds
backoff_seconds-min k base max h m =
    let fits = double_until-fits k base max h m in
    (
      rw (less-eq-ltb max (double_until k base max) (omega arith) fits) (
          seconds_of-fits (min max (double_until k base max)) (ground arith)
          ∙ ap (λ (n : ℕ). n / second) (double_until-min k base max h m)),
      refl,
    )
