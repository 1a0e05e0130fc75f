-- ===== src/Prelude/Tables.antt =====
-- Laws of the tables: selecting and counting after an update, a deletion or an insertion.
use secret_git.Prelude.Tests.{if◌then◌else◌, Bool-cases}
use secret_git.Prelude.Lists.{find_where, count_where, update_where, delete_where, any_where}
use Prim.Native.Nat.{◌+◌, ◌≤◌}
use mathlib.Core.Path.{◌≡◌, refl}
use mathlib.Core.Logic.{inl, inr}
use mathlib.Core.Bool.{Bool, true, false}
use mathlib.Core.List.{List, [], ◌∷◌, ◌++◌}
use mathlib.Core.Option.{none, some}
use native.Mathlib.Omega.{arith}

module _ {ℓ} {A : Type ℓ} where
  -- A row that is found passes the test.
  pub find_where-holds :
      (p : A → Bool) (xs : List A) (x : A) → find_where p xs ≡ some x → p x ≡ true
  unfolding find_where
  find_where-holds p [] x h = cc
  find_where-holds p (y ∷ xs) x h = elim (Bool-cases (p y)) [
    | inl t ↦ cc (rw t at h)
    | inr f ↦ find_where-holds p xs x (rw f at h)
  ]

  -- After an update of all the rows that pass a test, into rows that do not, none passes it.
  pub count-update_zero :
      (p q : A → Bool) (f : A → A) (xs : List A)
      → ((x : A) → q (f x) ≡ false)
      → ((x : A) → p x ≡ false → q x ≡ false)
      → count_where q (update_where p f xs) ≡ 0
  unfolding count_where update_where
  count-update_zero p q f [] hit miss = refl
  count-update_zero p q f (x ∷ xs) hit miss =
      ground (arith, hit x, miss x, count-update_zero p q f xs hit miss)

  -- After a deletion no row that passes the test is found.
  pub find-delete_none :
      (p q : A → Bool) (xs : List A)
      → ((x : A) → q x ≡ true → p x ≡ true)
      → find_where q (delete_where p xs) ≡ none
  unfolding find_where delete_where
  find-delete_none p q [] h = refl
  find-delete_none p q (x ∷ xs) h = ground (arith, h x, find-delete_none p q xs h)

  -- A deletion of rows that do not pass the test changes nothing of what is found.
  pub find-delete_other :
      (p q : A → Bool) (xs : List A)
      → ((x : A) → q x ≡ true → p x ≡ false)
      → find_where q (delete_where p xs) ≡ find_where q xs
  unfolding find_where delete_where
  find-delete_other p q [] h = refl
  find-delete_other p q (x ∷ xs) h = ground (arith, h x, find-delete_other p q xs h)

  -- The first part decides where it has a row.
  pub find-append :
      (q : A → Bool) (xs ys : List A)
      → find_where q xs ≡ none
      → find_where q (xs ++ ys) ≡ find_where q ys
  unfolding find_where
  find-append q [] ys h = refl
  find-append q (x ∷ xs) ys h = elim (Bool-cases (q x)) [
    | inl t ↦ cc (rw t at h)
    | inr f ↦ rw f (find-append q xs ys (rw f at h))
  ]

  -- Rows that passed a test and were not updated, or pass it after the update, still count.
  pub count-update_le :
      (p q : A → Bool) (f : A → A) (xs : List A)
      → ((x : A) → p x ≡ true → q x ≡ false)
      → count_where q xs ≤ count_where q (update_where p f xs)
  unfolding count_where update_where
  count-update_le p q f [] h = omega arith
  count-update_le p q f (x ∷ xs) h = ground (arith, h x, count-update_le p q f xs h)

  pub count_where_mono :
      (p q : A → Bool) (xs : List A)
      → ((x : A) → p x ≡ true → q x ≡ true)
      → count_where p xs ≤ count_where q xs
  unfolding count_where
  count_where_mono p q [] h = omega arith
  count_where_mono p q (x ∷ xs) h = ground (arith, h x, count_where_mono p q xs h)

  pub count-append :
      (p : A → Bool) (xs ys : List A)
      → count_where p (xs ++ ys) ≡ count_where p xs + count_where p ys
  unfolding count_where
  count-append p [] ys = omega arith
  count-append p (x ∷ xs) ys = ground (arith, count-append p xs ys)

  pub any_where-none :
      (p : A → Bool) (xs : List A) → any_where p xs ≡ false → find_where p xs ≡ none
  unfolding any_where
  any_where-none p xs h = ground arith

  -- What is found after a deletion was not to be deleted.
  pub find-delete_false :
      (p q : A → Bool) (xs : List A) (x : A)
      → find_where q (delete_where p xs) ≡ some x
      → p x ≡ false
  unfolding find_where delete_where
  find-delete_false p q [] x h = cc
  find-delete_false p q (y ∷ xs) x h = elim (Bool-cases (p y)) [
    | inl t ↦ find-delete_false p q xs x (rw t at h)
    | inr f ↦ elim (Bool-cases (q y)) [
      | inl u ↦ cc (rw (f, u) at h, f)
      | inr u ↦ find-delete_false p q xs x (rw (f, u) at h)
    ]
  ]

  -- An update that keeps a test finds the updated row.
  pub find-update :
      (p q : A → Bool) (f : A → A) (xs : List A) (x : A)
      → ((y : A) → q (f y) ≡ q y)
      → find_where q xs ≡ some x
      → find_where q (update_where p f xs) ≡ some (if p x then f x else x)
  unfolding find_where update_where
  find-update p q f [] x keep h = cc
  find-update p q f (y ∷ xs) x keep h = ground (arith, keep y, find-update p q f xs x keep)

  -- Rows that an update passes over still count, under a weaker test.
  pub count-update_from :
      (u p q : A → Bool) (f : A → A) (xs : List A)
      → ((x : A) → p x ≡ true → u x ≡ false)
      → ((x : A) → p x ≡ true → q x ≡ true)
      → count_where p xs ≤ count_where q (update_where u f xs)
  unfolding count_where update_where
  count-update_from u p q f [] over weaker = omega arith
  count-update_from u p q f (x ∷ xs) over weaker =
      ground (arith, over x, weaker x, count-update_from u p q f xs over weaker)

  -- Rows that pass a test before an update still count under a test that the update makes true.
  pub count-update_grows :
      (u p q : A → Bool) (f : A → A) (xs : List A)
      → ((x : A) → p x ≡ true → q (f x) ≡ true)
      → ((x : A) → p x ≡ true → q x ≡ true)
      → count_where p xs ≤ count_where q (update_where u f xs)
  unfolding count_where update_where
  count-update_grows u p q f [] hit weaker = omega arith
  count-update_grows u p q f (x ∷ xs) hit weaker =
      ground (arith, hit x, weaker x, count-update_grows u p q f xs hit weaker)

  pub count-update_shrinks :
      (u p q : A → Bool) (f : A → A) (xs : List A)
      → ((x : A) → p (f x) ≡ true → q x ≡ true)
      → ((x : A) → p x ≡ true → q x ≡ true)
      → count_where p (update_where u f xs) ≤ count_where q xs
  unfolding count_where update_where
  count-update_shrinks u p q f [] hit weaker = omega arith
  count-update_shrinks u p q f (x ∷ xs) hit weaker =
      ground (arith, hit x, weaker x, count-update_shrinks u p q f xs hit weaker)
