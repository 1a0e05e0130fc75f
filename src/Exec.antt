-- ===== src/Exec.antt =====
-- Methods that change a state and may fail. What was written before a failure stays written, so
-- the state comes back beside the error too.
pub mod Ends
pub mod Keeps
use secret_git.Prelude.{Result, ok, err}
use secret_git.Errors.{Error}

abbrev pub Exec : Type 0 → Type 0 → Type 0
Exec S A = S → Result Error A × S

module _ {S A : Type 0} where
  unfoldable pub pure : A → Exec S A
  pure a s = (ok a, s)

  unfoldable pub raise : Error → Exec S A
  raise e s = (err e, s)

  -- A pure step that may fail.
  unfoldable pub lift : Result Error A → Exec S A
  lift r s = (r, s)

  unfoldable pub gets : (S → A) → Exec S A
  gets f s = (ok (f s), s)

  -- The error of a step as a value, for code that tests it.
  unfoldable pub attempt : Exec S A → Exec S (Result Error A)
  attempt m s = let (r, s') = m s in (ok r, s')

module _ {S : Type 0} where
  unfoldable pub modify : (S → S) → Exec S (Unit {0})
  modify f s = (ok tt, f s)

module _ {S A B : Type 0} where
  abbrev pub continue : Result Error A → (A → Exec S B) → Exec S B
  continue (ok a) f s = f a s
  continue (err e) f s = (err e, s)

  infixl 5 ◌>>=◌
  -- Opening this opens the steps above too.
  unfoldable pub ◌>>=◌ : Exec S A → (A → Exec S B) → Exec S B
  unfolding pure raise lift gets attempt modify
  ◌>>=◌ m f s = let (r, s') = m s in continue r f s'

module _ {S B : Type 0} where
  infixl 5 ◌>>◌
  abbrev pub ◌>>◌ : Exec S (Unit {0}) → Exec S B → Exec S B
  m >> k = m >>= λ _. k
