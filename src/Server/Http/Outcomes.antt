-- ===== src/Server/Http/Outcomes.antt =====
-- What holds of the service after a handler: of the old one, and of what each success makes of it.
use secret_git.Prelude.{◌≡◌, refl, subst, nat_eq, text_eq, option_eq, Result, ok, err}
use secret_git.Prelude.Results.{◌>>=◌}
use secret_git.Server.{ServerError}
use secret_git.Server.Http.{Service, Response, respond, or_reply}

-- The value of a success satisfies the predicate.
pub record Yields {E A : Type 0} (m : Result E A) (Q : A → Type 0) : Type 0 where
  pub yield : (a : A) → m ≡ ok a → Q a

pub Yields-ok : {E A : Type 0} {Q : A → Type 0} (a : A) → Q a → Yields {E = E} (ok a) Q
Yields-ok {Q = Q} a q = record { yield = λ b e. subst Q (cc e) q }

pub Yields-bind :
    {E A B : Type 0} (m : Result E A) {f : A → Result E B} {Q : B → Type 0}
    → ((a : A) → m ≡ ok a → Yields (f a) Q)
    → Yields (m >>= f) Q
Yields-bind (ok a) h = h a refl
Yields-bind (err e) h = record { yield = λ b x. cc }

-- The service after a handler satisfies the predicate.
pub record Leaves (P : Service → Type 0) (out : Response × Service) : Type 0 where
  pub after : P out.1

pub respond-Leaves :
    {m : Result Response (Response × Service)} (s : Service) {P : Service → Type 0}
    → P s
    → Yields m (λ p. P p.1)
    → Leaves P (respond m s)
unfolding respond
respond-Leaves {m = ok (r, s')} s before h = record { after = h.yield (r, s') refl }
respond-Leaves {m = err e} s before h = record { after = before }

pub or_reply-eq-ok :
    {A : Type 0} (m : Result ServerError A) (f : ServerError → Response) {a : A}
    → or_reply m f ≡ ok a
    → m ≡ ok a
or_reply-eq-ok (ok b) f h = cc
or_reply-eq-ok (err e) f h = cc
