-- ===== src/Server/Http/Numbers.antt =====
-- strconv.ParseUint and the version header of server.go read what strconv.FormatUint prints.
use secret_git.Prelude.{
  Text, ℕ, zero, suc, ◌+◌, ◌-◌, ◌*◌, ◌/◌, ◌%◌, ◌^◌, ◌≤◌, ◌<◌, ◌≡◌, refl, sym, ◌∙◌, ap, false, ◌≢◌,
  ◌⊎◌, some, [], ◌∷◌, ◌++◌, nat_eq, All, arith, inl, inr, Bool-cases, ltb,
}
use mathlib.Core.List.{reverse, reverse_aux, reverse-reverse, reverse-append}
use secret_git.Split.{is_space, trim_left, trim_space}
use secret_git.Jcs.Decimal.{decimal, decimal_fuel}
use secret_git.Server.Http.{
  trim_quotes_left, trim_quotes, parse_digits, parse_uint, parse_etag_version, etag_text,
}

pub All-append : (P : ℕ → Type 0) (s t : Text) → All P s → All P t → All P (s ++ t)
All-append P [] t h k = k
All-append P (c ∷ s) t (h, hs) k = (h, All-append P s t hs k)

All-reverse_aux : (P : ℕ → Type 0) (s t : Text) → All P s → All P t → All P (reverse_aux s t)
All-reverse_aux P [] t h k = k
All-reverse_aux P (c ∷ s) t (h, hs) k = All-reverse_aux P s (c ∷ t) hs (h, k)

pub All-reverse : (P : ℕ → Type 0) (s : Text) → All P s → All P (reverse s)
All-reverse P s h = All-reverse_aux P s [] h tt

pub All-map : {P Q : ℕ → Type 0} (s : Text) → ((c : ℕ) → P c → Q c) → All P s → All Q s
All-map [] f h = tt
All-map (c ∷ s) f (h, hs) = (f c h, All-map s f hs)

-- A decimal digit in ASCII.
abbrev pub IsDigit : ℕ → Type 0
IsDigit c = (48 ≤ c) × (c ≤ 57)

digits_small : (f n : ℕ) → n < 10 → decimal_fuel (suc f) n ≡ (n + 48) ∷ []
unfolding decimal_fuel
digits_small f n h = ground arith

digits_large :
    (f n : ℕ) → 10 ≤ n → decimal_fuel (suc f) n ≡ decimal_fuel f (n / 10) ++ ((n % 10 + 48) ∷ [])
unfolding decimal_fuel
digits_large f n h = ground arith

small_or_large : (n : ℕ) → (n < 10) ⊎ (10 ≤ n)
small_or_large n = elim (Bool-cases (ltb n 10)) [
  | inl t ↦ inl (ground arith)
  | inr e ↦ inr (ground arith)
]

pub decimal_fuel-IsDigit : (f n : ℕ) → n < f → All IsDigit (decimal_fuel f n)
unfolding decimal_fuel
decimal_fuel-IsDigit zero n h = tt
decimal_fuel-IsDigit (suc f) n h = elim (small_or_large n) [
  | inl t ↦ rw (digits_small f n t) ((omega arith, omega arith), tt)
  | inr e ↦ rw (digits_large f n e) (
      All-append IsDigit (decimal_fuel f (n / 10)) _ (decimal_fuel-IsDigit f (n / 10) (omega arith))
        ((omega arith, omega arith), tt))
]

parse_digits-append :
    (a m c : ℕ) (s : Text)
    → IsDigit c
    → parse_digits a s ≡ some m
    → parse_digits a (s ++ (c ∷ [])) ≡ some (m * 10 + (c - 48))
unfolding parse_digits
parse_digits-append a m c [] d h = ground arith
parse_digits-append a m c (x ∷ s) d h =
    ground (arith, parse_digits-append (a * 10 + (x - 48)) m c s d)

parse-decimal_fuel : (f n : ℕ) → n < f → parse_digits 0 (decimal_fuel f n) ≡ some n
unfolding decimal_fuel parse_digits
parse-decimal_fuel zero n h = ground arith
parse-decimal_fuel (suc f) n h = elim (small_or_large n) [
  | inl t ↦ rw (digits_small f n t) (ground arith)
  | inr e ↦ rw (digits_large f n e) (
      parse_digits-append 0 (n / 10) (n % 10 + 48) (decimal_fuel f (n / 10))
        (omega arith, ground arith) (parse-decimal_fuel f (n / 10) (omega arith))
      ∙ ap some (omega arith))
]

parse_uint-cons :
    (s : Text) (n : ℕ) → s ≢ [] → parse_digits 0 s ≡ some n → n < 2 ^ 64 → parse_uint s ≡ some n
unfolding parse_uint
parse_uint-cons [] n d h lt = absurd (d refl)
parse_uint-cons (c ∷ s) n d h lt = rw h (ground arith)

append-ne-nil : (s : Text) (c : ℕ) → (s ++ (c ∷ [])) ≢ []
append-ne-nil [] c h = cc
append-ne-nil (x ∷ s) c h = cc

decimal_fuel-ne-nil : (f n : ℕ) → decimal_fuel (suc f) n ≢ []
decimal_fuel-ne-nil f n h = elim (small_or_large n) [
  | inl t ↦ cc (digits_small f n t, h)
  | inr e ↦ append-ne-nil (decimal_fuel f (n / 10)) _ (sym (digits_large f n e) ∙ h)
]

-- ParseUint reads what FormatUint prints of a 64-bit number.
pub parse_uint-decimal : (n : ℕ) → n < 2 ^ 64 → parse_uint (decimal n) ≡ some n
unfolding decimal
parse_uint-decimal n h =
    parse_uint-cons (decimal n) n (decimal_fuel-ne-nil n n)
      (parse-decimal_fuel (suc n) n (omega arith)) h

pub trim_left-kept : (s : Text) → All (λ c. is_space c ≡ false) s → trim_left s ≡ s
unfolding trim_left
trim_left-kept [] h = refl
trim_left-kept (c ∷ s) (h, hs) = rw h refl

-- A text without white space is not trimmed.
pub trim_space-kept : (s : Text) → All (λ c. is_space c ≡ false) s → trim_space s ≡ s
unfolding trim_space
trim_space-kept s h =
    rw
      (
        trim_left-kept s h,
        trim_left-kept (reverse s) (All-reverse_aux _ s [] h tt),
        reverse-reverse s,
      )
      refl

trim_quotes_left-kept : (s : Text) → All IsDigit s → trim_quotes_left s ≡ s
unfolding trim_quotes_left
trim_quotes_left-kept [] h = refl
trim_quotes_left-kept (c ∷ s) (h, hs) = ground arith

-- Quotation marks around digits are trimmed.
trim_quotes_left-quoted : (c : ℕ) (s : Text) → IsDigit c → trim_quotes_left (34 ∷ c ∷ s) ≡ c ∷ s
unfolding trim_quotes_left
trim_quotes_left-quoted c s d = ground arith

trim_quotes-quoted : (s : Text) → All IsDigit s → trim_quotes (34 ∷ (s ++ (34 ∷ []))) ≡ s
unfolding trim_quotes trim_quotes_left
trim_quotes-quoted [] h = refl
trim_quotes-quoted (c ∷ s) (h, hs) =
    rw
      (
        trim_quotes_left-quoted c (s ++ (34 ∷ [])) h,
        reverse-append (c ∷ s) (34 ∷ []),
        trim_quotes_left-kept (reverse (c ∷ s)) (All-reverse_aux _ (c ∷ s) [] (h, hs) tt),
        reverse-reverse (c ∷ s),
      )
      refl

trim_quotes-kept : (s : Text) → All IsDigit s → trim_quotes s ≡ s
unfolding trim_quotes
trim_quotes-kept s h =
    rw
      (
        trim_quotes_left-kept s h,
        trim_quotes_left-kept (reverse s) (All-reverse_aux _ s [] h tt),
        reverse-reverse s,
      )
      refl

-- A number without quotation marks is read too.
pub parse_etag_version-decimal : (v : ℕ) → v < 2 ^ 64 → parse_etag_version (decimal v) ≡ some v
unfolding parse_etag_version decimal is_space
parse_etag_version-decimal v h =
    let digits = decimal_fuel-IsDigit (suc v) v (omega arith) in
    rw
      (
        trim_space-kept (decimal v)
            (All-map {P = IsDigit} (decimal v) (λ c d. ground arith) digits),
        trim_quotes-kept (decimal v) digits,
      )
      (parse_uint-decimal v h)

etag_solid : (s : Text) → All IsDigit s → All (λ c. is_space c ≡ false) (34 ∷ (s ++ (34 ∷ [])))
unfolding is_space
etag_solid s h = (refl, All-append _ s (34 ∷ []) (All-map s (λ c d. ground arith) h) (refl, tt))

-- Every 64-bit version is read back from the header that announces it.
pub parse_etag_version-etag_text : (v : ℕ) → v < 2 ^ 64 → parse_etag_version (etag_text v) ≡ some v
unfolding parse_etag_version etag_text decimal
parse_etag_version-etag_text v h =
    let digits = decimal_fuel-IsDigit (suc v) v (omega arith) in
    rw
      (
        trim_space-kept (34 ∷ (decimal v ++ (34 ∷ []))) (etag_solid (decimal v) digits),
        trim_quotes-quoted (decimal v) digits,
      )
      (parse_uint-decimal v h)
