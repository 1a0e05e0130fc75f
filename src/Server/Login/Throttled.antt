-- ===== src/Server/Login/Throttled.antt =====
-- What a wrong password means for the next attempt: handleLogin of internal/server/server.go, with
-- throttleFail and throttleStatus of throttle.go.
use secret_git.Prelude.{
  Text, ℕ, suc, ◌+◌, ◌-◌, ◌*◌, ◌/◌, ◌^◌, ◌<◌, ◌≤◌, ◌≡◌, refl, sym, ap, subst, ◌∙◌, Bool, true,
  false, ◌||◌, some, List, [], ◌∷◌, nat_eq, text_eq, option_eq, text_beq_iff, Result, ok, err,
  if◌then◌else◌, find_where, delete_where, Bool-cases, inl, inr, arith,
}
use secret_git.Library.{Library}
use secret_git.Server.{ServerError, bad_token, Throttle, Db}
use secret_git.Server.Http.{Service, Config}
use secret_git.Server.Throttling.{
  less, wrap, second, scope_ip, scope_user, is_row, is_either_row, fail_count_of, backoff_seconds,
  latest_window, select_where, put_row, bump, throttle_fail, throttle_status,
}
use secret_git.Server.Throttling.Backoff.{min, pow_pos, backoff_seconds-min}
use secret_git.Server.Login.{handle_login, try_login, after_login}

-- A row of the table.
data Has (row : Throttle) : List Throttle → Type 0 where
  here : {ts : List Throttle} → Has row (row ∷ ts)
  there : {t : Throttle} {ts : List Throttle} → Has row ts → Has row (t ∷ ts)

put_row-Has : (row : Throttle) (ts : List Throttle) → Has row (put_row row ts)
unfolding put_row
put_row-Has row [] = here
put_row-Has row (t ∷ ts) = elim (Bool-cases (is_row row.scope row.key t)) [
  | inl e ↦ rw e here
  | inr e ↦ rw e (there (put_row-Has row ts))
]

delete_where-Has :
    (p : Throttle → Bool) (row : Throttle) (ts : List Throttle)
    → p row ≡ false
    → Has row ts
    → Has row (delete_where p ts)
unfolding delete_where
delete_where-Has p row _ k here = rw k here
delete_where-Has p row _ k (there {t = t} {ts = ts} h) = elim (Bool-cases (p t)) [
  | inl e ↦ rw e (delete_where-Has p row ts k h)
  | inr e ↦ rw e (there (delete_where-Has p row ts k h))
]

select_where-Has :
    (p : Throttle → Bool) (row : Throttle) (ts : List Throttle)
    → p row ≡ true
    → Has row ts
    → Has row (select_where p ts)
unfolding select_where
select_where-Has p row _ k here = rw k here
select_where-Has p row _ k (there {t = t} {ts = ts} h) = elim (Bool-cases (p t)) [
  | inl e ↦ rw e (there (select_where-Has p row ts k h))
  | inr e ↦ rw e (select_where-Has p row ts k h)
]

or_right : (a b : Bool) → b ≡ true → (a || b) ≡ true
or_right true b h = refl
or_right false b h = h

-- A time that comes before some window comes before the latest one.
less_trans : (a b c : ℕ) → less a b ≡ true → less c b ≡ false → less a c ≡ true
less_trans a b c h k = ground arith

less-latest :
    (now until : ℕ) (ts : List Throttle)
    → less now until ≡ true
    → less now (latest_window ts until) ≡ true
unfolding latest_window
less-latest now until [] h = h
less-latest now until (t ∷ ts) h = elim (Bool-cases (less until t.window_until)) [
  | inl e ↦ rw e (less-latest now t.window_until ts (ground arith))
  | inr e ↦ rw e (less-latest now until ts h)
]

less-latest-Has :
    (now : ℕ) (row : Throttle) (ts : List Throttle)
    → less now row.window_until ≡ true
    → Has row ts
    → (until : ℕ) → less now (latest_window ts until) ≡ true
unfolding latest_window
less-latest-Has now row _ h (here {ts = ts}) until =
    elim (Bool-cases (less until row.window_until)) [
      | inl e ↦ rw e (less-latest now row.window_until ts h)
      | inr e ↦ rw e (less-latest now until ts (less_trans now row.window_until until h e))
    ]
less-latest-Has now row _ h (there {t = t} {ts = ts} k) until =
    less-latest-Has now row ts h k (if less until t.window_until then t.window_until else until)

-- A row of the username whose window is open is found, and not pruned.
blocked :
    (later grace : ℕ) (ip user : Text) (row : Throttle) (db : Db)
    → Has row db.login_throttle
    → is_row scope_user user row ≡ true
    → less row.window_until (wrap (later + 2 ^ 64 - grace)) ≡ false
    → less later row.window_until ≡ true
    → less later (throttle_status later ip user grace db).0 ≡ true
unfolding throttle_status
blocked later grace ip user row db h mine kept shut =
    let p = λ (t : Throttle). less t.window_until (wrap (later + 2 ^ 64 - grace)) in
    let rows = delete_where p db.login_throttle in
    let chosen : is_either_row ip user row ≡ true =
      or_right (is_row scope_ip ip row) (is_row scope_user user row) mine in
    less-latest-Has later row (select_where (is_either_row ip user) rows) shut
      (select_where-Has (is_either_row ip user) row rows chosen
        (delete_where-Has p row db.login_throttle kept h))
      0

-- The row of the username after a failed attempt.
failed-Has :
    (now base max : ℕ) (ip user : Text) (db : Db)
    → (row : Throttle) × Has row (throttle_fail now ip user base max db).login_throttle
      × (is_row scope_user user row ≡ true)
      × ((count : ℕ) × (row.window_until ≡ wrap (now + backoff_seconds (suc count) base max)))
unfolding throttle_fail bump
failed-Has now base max ip user db =
    let rows = bump now base max scope_ip ip db.login_throttle in
    let count = fail_count_of (find_where (is_row scope_user user) rows) in
    (
      _,
      put_row-Has _ rows,
      ground (arith, text_beq_iff user user, text_beq_iff scope_user scope_user),
      (count, refl),
    )

pow_ge : (base k : ℕ) → base ≤ base * 2 ^ k
pow_ge base k = grind (arith, pow_pos k)

-- The window after any number of failures is not shorter than after one.
backoff_bounds :
    (k base max : ℕ)
    → base < 2 ^ 62
    → max ≤ 2 ^ 62
    → (min max base / second ≤ backoff_seconds (suc k) base max)
      × (backoff_seconds (suc k) base max < 2 ^ 62)
backoff_bounds k base max h m =
    rw (backoff_seconds-min k base max h m).0 (ground (arith, pow_ge base k), ground arith)

window_open :
    (now later w grace : ℕ)
    → now < 2 ^ 62
    → w < 2 ^ 62
    → grace < 2 ^ 62
    → later < now + w
    → (less (wrap (now + w)) (wrap (later + 2 ^ 64 - grace)) ≡ false)
      × (less later (wrap (now + w)) ≡ true)
window_open now later w grace a b c d = (ground arith, ground arith)

-- The table after an answer of 401.
record IsCounted (cfg : Config) (now : ℕ) (ip user : Text) (after : Db) : Type 0 where
  before : Db
  counted : after ≡ throttle_fail now ip user cfg.login_backoff_base cfg.login_backoff_max before

after_login-IsCounted :
    (cfg : Config) (now : ℕ) (ip user : Text) (outcome : Result ServerError (Text × Db))
    (s : Service)
    → (after_login cfg now ip user outcome s).0.status ≡ 401
    → IsCounted cfg now ip user (after_login cfg now ip user outcome s).1.db
unfolding after_login
after_login-IsCounted cfg now ip user (ok (token, db)) s h = absurd (omega (arith, h))
after_login-IsCounted cfg now ip user (err bad_token) s h = record { before = s.db; counted = refl }
after_login-IsCounted cfg now ip user (err _) s h = absurd (omega (arith, h))

module _ ⦃lib : Library⦄ where
  handle_login-IsCounted :
      (cfg : Config) (drawn : Text) (now : ℕ) (ip user password : Text) (slot : Bool) (s : Service)
      → (handle_login cfg drawn now ip slot (some (user, password)) s).0.status ≡ 401
      → IsCounted cfg now ip user
          (handle_login cfg drawn now ip slot (some (user, password)) s).1.db
  unfolding handle_login try_login
  handle_login-IsCounted cfg drawn now ip user password slot s h =
      let p = throttle_status now ip user cfg.throttle_prune_grace s.db in
      elim (Bool-cases (less now p.0)) [
        | inl t ↦ absurd (omega (arith, rw t at h))
        | inr f ↦ elim (Bool-cases slot) [
          | inr f' ↦ absurd (omega (arith, rw (f, f') at h))
          | inl t ↦ rw (f, t) (after_login-IsCounted cfg now ip user _ _ (rw (f, t) at h))
        ]
      ]

  handle_login-blocked :
      (cfg : Config) (drawn : Text) (now : ℕ) (ip user password : Text) (slot : Bool) (s : Service)
      → less now (throttle_status now ip user cfg.throttle_prune_grace s.db).0 ≡ true
      → (handle_login cfg drawn now ip slot (some (user, password)) s).0.status ≡ 429
  unfolding handle_login
  handle_login-blocked cfg drawn now ip user password slot s h = rw h refl

  -- After an attempt that is answered with 401, every attempt for the same username, from any
  -- address and with any password, is answered with 429 until the shortest backoff has passed: the
  -- base or the maximum, whichever is less, in whole seconds. Base, maximum, grace and time are
  -- below 2 ^ 62.
  pub handle_login-blocks :
      (cfg : Config) (drawn drawn' : Text) (now later : ℕ) (ip ip' user password password' : Text)
      (slot slot' : Bool) (s : Service)
      → cfg.login_backoff_base < 2 ^ 62
      → cfg.login_backoff_max < 2 ^ 62
      → cfg.throttle_prune_grace < 2 ^ 62
      → now < 2 ^ 62
      → (handle_login cfg drawn now ip slot (some (user, password)) s).0.status ≡ 401
      → later < now + min cfg.login_backoff_max cfg.login_backoff_base / second
      → (handle_login cfg drawn' later ip' slot'
          (some (user, password'))
          (handle_login cfg drawn now ip slot (some (user, password)) s).1).0.status
        ≡ 429
  handle_login-blocks cfg drawn drawn' now later ip ip' user password password' slot slot' s base
        max grace n h l =
      let c = handle_login-IsCounted cfg drawn now ip user password slot s h in
      let (row, has, mine, (count, until)) =
        failed-Has now cfg.login_backoff_base cfg.login_backoff_max ip user c.before in
      let (long, fits) =
        backoff_bounds count cfg.login_backoff_base cfg.login_backoff_max base (omega arith) in
      let w = backoff_seconds (suc count) cfg.login_backoff_base cfg.login_backoff_max in
      let (kept, shut) =
        window_open now later w cfg.throttle_prune_grace n fits grace (omega arith) in
      handle_login-blocked cfg drawn' later ip' user password' slot' _ (
        blocked later cfg.throttle_prune_grace ip' user row _
          (subst (λ (db : Db). Has row db.login_throttle) (sym c.counted) has) mine
          (ap (λ (u : ℕ). less u (wrap (later + 2 ^ 64 - cfg.throttle_prune_grace))) until ∙ kept)
          (ap (λ (u : ℕ). less later u) until ∙ shut))
