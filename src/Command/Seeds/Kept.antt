-- ===== src/Command/Seeds/Kept.antt =====
-- The seed file that identity new writes is read back.
use secret_git.Prelude.{
  Text, ℕ, ◌<◌, ◌/◌, ◌%◌, ◌≡◌, refl, Bool, true, false, [], ◌∷◌, ◌++◌, nat_eq, text_eq, Result, ok,
  err, length, All, arith,
}
use mathlib.Core.List.{reverse, reverse-append, reverse-reverse}
use secret_git.Library.{Library}
use secret_git.Split.{trim_space, trim_left, is_space}
use secret_git.Hex.{hex_encode, hex_digit, IsByte, hex_decode-hex_encode}
use secret_git.Keys.{Identity, from_seed}
use secret_git.Server.Http.Numbers.{trim_left-kept, All-reverse}
use secret_git.Store.Disk.{FileError}
use secret_git.Command.{Environment, EnvironmentLaws}
use secret_git.Command.Seeds.{load_seed, seed_in, identity_new}

abbrev IsSolid : ℕ → Type 0
IsSolid c = is_space c ≡ false

-- A newline at the end is trimmed.
trim_newline : (s : Text) → All IsSolid s → trim_space (s ++ (10 ∷ [])) ≡ s
unfolding trim_space trim_left is_space
trim_newline [] h = refl
trim_newline (c ∷ s) (h, hs) =
    rw
      (
        h,
        reverse-append (c ∷ s) (10 ∷ []),
        trim_left-kept (reverse (c ∷ s)) (All-reverse IsSolid (c ∷ s) (h, hs)),
        reverse-reverse (c ∷ s),
      )
      refl

hex_digit-IsSolid : (d : ℕ) → d < 16 → is_space (hex_digit d) ≡ false
unfolding is_space hex_digit
hex_digit-IsSolid d h = ground arith

hex_encode-IsSolid : (bs : Text) → All IsByte bs → All IsSolid (hex_encode bs)
unfolding hex_encode
hex_encode-IsSolid [] h = tt
hex_encode-IsSolid (b ∷ bs) (h, hs) = (
  hex_digit-IsSolid (b / 16) (omega arith),
  (hex_digit-IsSolid (b % 16) (omega arith), hex_encode-IsSolid bs hs),
)

module _ ⦃lib : Library⦄ {D : Type 0} (env : Environment D) (laws : EnvironmentLaws D env) where
  seed_in-written :
      (seed : Text)
      → All IsByte seed
      → length seed ≡ 32
      → seed_in (ok (hex_encode seed ++ (10 ∷ []))) ≡ from_seed seed
  unfolding seed_in
  seed_in-written seed bytes size =
      rw
        (
          trim_newline (hex_encode seed) (hex_encode-IsSolid seed bytes),
          hex_decode-hex_encode seed bytes,
          size,
        )
        refl

  kept :
      (path seed : Text) (member : Identity) (d : D) (r : Result FileError (Unit {0})) (w : Bool)
      → All IsByte seed
      → length seed ≡ 32
      → env.files.stat path d ≡ r
      → (env.write_file path (hex_encode seed ++ (10 ∷ [])) d).0 ≡ w
      → (identity_new env path seed d).0 ≡ ok member
      → load_seed env path (identity_new env path seed d).1 ≡ ok member
  unfolding identity_new load_seed
  kept path seed member d (ok tt) w bytes size s t e = cc (rw (identity_new, s) at e)
  kept path seed member d (err x) false bytes size s t e = cc (rw (identity_new, s, t) at e)
  kept path seed member d (err x) true bytes size s t e =
      rw
        (
          identity_new,
          s,
          t,
          laws.written path (hex_encode seed ++ (10 ∷ [])) d t,
          seed_in-written seed bytes size,
        )
        (rw (identity_new, s, t) at e)

  -- Where identity new, on 32 bytes that were drawn, returns a member, the seed file gives the
  -- same member afterwards.
  pub load_seed-identity_new :
      (path seed : Text) (member : Identity) (d : D)
      → All IsByte seed
      → length seed ≡ 32
      → (identity_new env path seed d).0 ≡ ok member
      → load_seed env path (identity_new env path seed d).1 ≡ ok member
  load_seed-identity_new path seed member d bytes size e =
      kept path seed member d _ _ bytes size refl refl e
