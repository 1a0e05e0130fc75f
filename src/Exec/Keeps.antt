-- ===== src/Exec/Keeps.antt =====
-- Parts of the state that a method leaves alone, one rule for each way to build a method.
use secret_git.Prelude.{Result, ok, err, ◌≡◌, refl, ◌∙◌, Bool, true, false, if◌then◌else◌}
use secret_git.Errors.{Error}
use secret_git.Exec.{Exec, continue, ◌>>=◌, lift, pure, raise, gets, attempt}
use secret_git.Exec.Ends.{Ends, returns, fails, Ends-bind, Ends-weaken}

-- `m` leaves `view` alone, whether it returns or fails.
pub record Keeps {S V A : Type 0} (view : S → V) (m : Exec S A) : Type 0 where
  pub at : (s : S) → view (m s).1 ≡ view s

module _ {S V A : Type 0} {view : S → V} where
  pub Keeps-pure : (a : A) → Keeps view (pure a)
  unfolding pure
  Keeps-pure a = record { at = λ s. refl }

  pub Keeps-raise : (e : Error) → Keeps view (raise {A = A} e)
  unfolding raise
  Keeps-raise e = record { at = λ s. refl }

  pub Keeps-lift : (r : Result Error A) → Keeps view (lift r)
  unfolding lift
  Keeps-lift r = record { at = λ s. refl }

  pub Keeps-gets : (f : S → A) → Keeps view (gets f)
  unfolding gets
  Keeps-gets f = record { at = λ s. refl }

  pub Keeps-attempt : (m : Exec S A) → Keeps view m → Keeps view (attempt m)
  unfolding attempt
  Keeps-attempt m k = record { at = λ s. k.at s }

  pub Keeps-if :
      (b : Bool) (m n : Exec S A) → Keeps view m → Keeps view n → Keeps view (if b then m else n)
  Keeps-if true m n km kn = km
  Keeps-if false m n km kn = kn

  -- What the view was before is what it is when the method ends.
  pub Keeps-Ends :
      {v : V} (m : Exec S A) (s : S)
      → Keeps view m
      → view s ≡ v
      → Ends (λ a t. view t ≡ v) (λ t. view t ≡ v) (m s)
  Keeps-Ends {v} m s k h = go (m s) (k.at s ∙ h)
    where
      go : (p : Result Error A × S) → view p.1 ≡ v → Ends (λ a t. view t ≡ v) (λ t. view t ≡ v) p
      go (ok a, t) e = returns e
      go (err x, t) e = fails e

module _ {S V A B : Type 0} {view : S → V} where
  Keeps-continue :
      (r : Result Error A) (f : A → Exec S B) (s : S)
      → ((a : A) → Keeps view (f a))
      → view (continue r f s).1 ≡ view s
  Keeps-continue (ok a) f s k = (k a).at s
  Keeps-continue (err e) f s k = refl

  pub Keeps-bind :
      (m : Exec S A) (f : A → Exec S B)
      → Keeps view m
      → ((a : A) → Keeps view (f a))
      → Keeps view (m >>= f)
  unfolding ◌>>=◌
  Keeps-bind m f km kf = record { at = λ s. Keeps-continue (m s).0 f (m s).1 kf ∙ km.at s }

module _ {S V A B : Type 0} {view : S → V} {R : B → S → Type 0} {X : S → Type 0} where
  -- A step that leaves the view alone, and what follows it.
  pub Ends-keep :
      {v : V} (m : Exec S A) (f : A → Exec S B) (s : S)
      → Keeps view m
      → view s ≡ v
      → ((t : S) → view t ≡ v → X t)
      → ((a : A) (t : S) → view t ≡ v → Ends R X (f a t))
      → Ends R X ((m >>= f) s)
  Ends-keep m f s k h x g =
      Ends-bind m f s (Ends-weaken (Keeps-Ends m s k h) (λ a t e. e) (λ t e. x t e)) g

pub ruleset keeps_rules =
    (Keeps-pure, Keeps-raise, Keeps-lift, Keeps-gets, Keeps-attempt, Keeps-if, Keeps-bind)
