-- ===== src/Server/Login/Cleared.antt =====
-- What a successful login means for the next attempt: handleLogin of internal/server/server.go, with
-- throttleReset and throttleStatus of throttle.go.
use secret_git.Prelude.{
  Text, ℕ, ◌^◌, ◌<◌, ◌≡◌, ◌≢◌, refl, ap, ◌∙◌, Bool, true, false, some, List, [], ◌∷◌, nat_eq,
  text_eq, option_eq, Result, ok, err, All, delete_where, Bool-cases, inl, inr, arith,
}
use secret_git.Library.{Library}
use secret_git.Server.{ServerError, bad_token, Throttle, Db}
use secret_git.Server.Http.{Service, Config}
use secret_git.Server.Throttling.{
  less, is_either_row, latest_window, select_where, throttle_reset, throttle_status,
}
use secret_git.Server.Login.{handle_login, try_login, after_login}

-- No row passes the test.
abbrev NoRow : (Throttle → Bool) → List Throttle → Type 0
NoRow p ts = All (λ (t : Throttle). p t ≡ false) ts

delete_where-NoRow : (p : Throttle → Bool) (ts : List Throttle) → NoRow p (delete_where p ts)
unfolding delete_where
delete_where-NoRow p [] = tt
delete_where-NoRow p (t ∷ ts) = elim (Bool-cases (p t)) [
  | inl e ↦ rw e (delete_where-NoRow p ts)
  | inr e ↦ rw e (e, delete_where-NoRow p ts)
]

delete_more-NoRow :
    (p q : Throttle → Bool) (ts : List Throttle) → NoRow p ts → NoRow p (delete_where q ts)
unfolding delete_where
delete_more-NoRow p q [] h = tt
delete_more-NoRow p q (t ∷ ts) h = elim (Bool-cases (q t)) [
  | inl e ↦ rw e (delete_more-NoRow p q ts h.1)
  | inr e ↦ rw e (h.0, delete_more-NoRow p q ts h.1)
]

select_where_none : (p : Throttle → Bool) (ts : List Throttle) → NoRow p ts → select_where p ts ≡ []
unfolding select_where
select_where_none p [] h = refl
select_where_none p (t ∷ ts) h = rw h.0 (select_where_none p ts h.1)

no_window :
    (now grace : ℕ) (ip user : Text) (db : Db)
    → (throttle_status now ip user grace (throttle_reset ip user db)).0 ≡ 0
unfolding throttle_status throttle_reset latest_window
no_window now grace ip user db =
    rw
      (select_where_none (is_either_row ip user) _ (
        delete_more-NoRow (is_either_row ip user) _ _
          (delete_where-NoRow (is_either_row ip user) db.login_throttle)))
      refl

-- The table after an answer of 200.
record IsReset (ip user : Text) (after : Db) : Type 0 where
  before : Db
  reset : after ≡ throttle_reset ip user before

after_login-IsReset :
    (cfg : Config) (now : ℕ) (ip user : Text) (outcome : Result ServerError (Text × Db))
    (s : Service)
    → (after_login cfg now ip user outcome s).0.status ≡ 200
    → IsReset ip user (after_login cfg now ip user outcome s).1.db
unfolding after_login
after_login-IsReset cfg now ip user (ok (token, db)) s h = record { before = db; reset = refl }
after_login-IsReset cfg now ip user (err bad_token) s h = absurd (omega (arith, h))
after_login-IsReset cfg now ip user (err _) s h = absurd (omega (arith, h))

module _ ⦃lib : Library⦄ where
  handle_login-IsReset :
      (cfg : Config) (drawn : Text) (now : ℕ) (ip user password : Text) (slot : Bool) (s : Service)
      → (handle_login cfg drawn now ip slot (some (user, password)) s).0.status ≡ 200
      → IsReset ip user (handle_login cfg drawn now ip slot (some (user, password)) s).1.db
  unfolding handle_login try_login
  handle_login-IsReset cfg drawn now ip user password slot s h =
      let p = throttle_status now ip user cfg.throttle_prune_grace s.db in
      elim (Bool-cases (less now p.0)) [
        | inl t ↦ absurd (omega (arith, rw t at h))
        | inr f ↦ elim (Bool-cases slot) [
          | inr f' ↦ absurd (omega (arith, rw (f, f') at h))
          | inl t ↦ rw (f, t) (after_login-IsReset cfg now ip user _ _ (rw (f, t) at h))
        ]
      ]

  after_login-ne :
      (cfg : Config) (now : ℕ) (ip user : Text) (outcome : Result ServerError (Text × Db))
      (s : Service)
      → (after_login cfg now ip user outcome s).0.status ≢ 429
  unfolding after_login
  after_login-ne cfg now ip user (ok (token, db)) s e = absurd (omega (arith, e))
  after_login-ne cfg now ip user (err bad_token) s e = absurd (omega (arith, e))
  after_login-ne cfg now ip user (err _) s e = absurd (omega (arith, e))

  handle_login_admits :
      (cfg : Config) (drawn : Text) (now : ℕ) (ip user password : Text) (slot : Bool) (s : Service)
      → less now (throttle_status now ip user cfg.throttle_prune_grace s.db).0 ≡ false
      → (handle_login cfg drawn now ip slot (some (user, password)) s).0.status ≢ 429
  unfolding handle_login try_login
  handle_login_admits cfg drawn now ip user password true s f h =
      after_login-ne cfg now ip user _ _ (rw f at h)
  handle_login_admits cfg drawn now ip user password false s f h = absurd (omega (arith, rw f at h))

  -- After an attempt that is answered with 200, whatever the table held before, the next attempt
  -- for the same username from the same address, at any time below 2 ^ 63 and with any password, is
  -- not answered with 429.
  pub handle_login_again :
      (cfg : Config) (drawn drawn' : Text) (now later : ℕ) (ip user password password' : Text)
      (slot slot' : Bool) (s : Service)
      → later < 2 ^ 63
      → (handle_login cfg drawn now ip slot (some (user, password)) s).0.status ≡ 200
      → (handle_login cfg drawn' later ip slot'
          (some (user, password'))
          (handle_login cfg drawn now ip slot (some (user, password)) s).1).0.status
        ≢ 429
  handle_login_again cfg drawn drawn' now later ip user password password' slot slot' s l h =
      let r = handle_login-IsReset cfg drawn now ip user password slot s h in
      let none_open =
        ap (λ (db : Db). (throttle_status later ip user cfg.throttle_prune_grace db).0) r.reset
        ∙ no_window later cfg.throttle_prune_grace ip user r.before in
      handle_login_admits cfg drawn' later ip user password' slot' _
        (ap (λ (u : ℕ). less later u) none_open ∙ ground arith)
