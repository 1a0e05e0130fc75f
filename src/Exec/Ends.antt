-- ===== src/Exec/Ends.antt =====
-- What holds when a method ends: one condition for a value that is returned, one for an error.
use secret_git.Prelude.{Result, ok, err, ◌≡◌, refl, subst, Bool, true, false, if◌then◌else◌}
use secret_git.Errors.{Error}
use secret_git.Exec.{Exec, continue, ◌>>=◌, lift, gets, pure, raise}

pub data Ends {S A : Type 0} (Q : A → S → Type 0) (X : S → Type 0)
    : Result Error A × S → Type 0 where
  returns : {a : A} {s : S} → Q a s → Ends Q X (ok a, s)
  fails : {e : Error} {s : S} → X s → Ends Q X (err e, s)

module _ {S A B : Type 0} {Q : A → S → Type 0} {R : B → S → Type 0} {X : S → Type 0} where
  Ends-continue :
      {p : Result Error A × S} (f : A → Exec S B)
      → Ends Q X p
      → ((a : A) (s : S) → Q a s → Ends R X (f a s))
      → Ends R X (continue p.0 f p.1)
  Ends-continue f (returns {a = a} {s = s} q) k = k a s q
  Ends-continue f (fails x) k = fails x

  -- The rule for a step and what follows it.
  pub Ends-bind :
      (m : Exec S A) (f : A → Exec S B) (s : S)
      → Ends Q X (m s)
      → ((a : A) (t : S) → Q a t → Ends R X (f a t))
      → Ends R X ((m >>= f) s)
  unfolding ◌>>=◌
  Ends-bind m f s h k = Ends-continue f h k

module _ {S A : Type 0} {Q R : A → S → Type 0} {X Y : S → Type 0} where
  -- A weaker condition holds too.
  pub Ends-weaken :
      {p : Result Error A × S}
      → Ends Q X p
      → ((a : A) (s : S) → Q a s → R a s)
      → ((s : S) → X s → Y s)
      → Ends R Y p
  Ends-weaken (returns {a = a} {s = s} q) f g = returns (f a s q)
  Ends-weaken (fails {s = s} x) f g = fails (g s x)

module _ {S A B : Type 0} {R : B → S → Type 0} {X : S → Type 0} where
  -- A pure step: what follows may use that it did not fail.
  pub Ends-lift :
      (r : Result Error A) (f : A → Exec S B) (s : S)
      → X s
      → ((a : A) → r ≡ ok a → Ends R X (f a s))
      → Ends R X ((lift r >>= f) s)
  unfolding ◌>>=◌
  Ends-lift (ok a) f s x k = k a refl
  Ends-lift (err e) f s x k = fails x

  pub Ends-gets :
      (g : S → A) (f : A → Exec S B) (s : S) → Ends R X (f (g s) s) → Ends R X ((gets g >>= f) s)
  unfolding ◌>>=◌
  Ends-gets g f s h = h

module _ {S A : Type 0} {Q : A → S → Type 0} {X : S → Type 0} where
  pub Ends-if :
      (b : Bool) (m n : Exec S A) (s : S)
      → (b ≡ true → Ends Q X (m s))
      → (b ≡ false → Ends Q X (n s))
      → Ends Q X ((if b then m else n) s)
  Ends-if true m n s km kn = km refl
  Ends-if false m n s km kn = kn refl

  pub Ends-pure : (a : A) (s : S) → Q a s → Ends Q X (pure a s)
  unfolding pure
  Ends-pure a s q = returns q

  pub Ends-raise : (e : Error) (s : S) → X s → Ends Q X (raise e s)
  unfolding raise
  Ends-raise e s x = fails x

  -- A method that ended with a value.
  pub Ends-ok : {p : Result Error A × S} {a : A} → Ends Q X p → p.0 ≡ ok a → Q a p.1
  Ends-ok (returns {s = s} q) e = subst (λ x. Q x s) (cc) q
  Ends-ok (fails x) e = cc
