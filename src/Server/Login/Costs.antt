-- ===== src/Server/Login/Costs.antt =====
-- What handleLogin and login cost: the runs of argon2id.
use secret_git.Prelude.{
  Text, ℕ, ◌+◌, ◌≤◌, ◌≡◌, ◌≢◌, refl, sym, ◌∙◌, Bool, Option, none, some, List, [], ◌++◌, nat_eq,
  text_eq, option_eq, Result, ok, err, length, text_beq, arith,
}
use secret_git.Library.{Library}
use secret_git.Prelude.{append-nil, All, Bool-cases, inl, inr, replicate}
use secret_git.Hex.{IsByte, hex_encode, hex_decode, hex_decode-hex_encode}
use secret_git.Server.{bad_token, Account, Db, ServerError}
use secret_git.Server.Passwords.{
  argon_salt_len, Cost, production, verify_password, compare_hash, decoy_salt_hex, decoy_hash_hex,
  format_params, parse_params,
}
use secret_git.Server.Accounts.{login, login_as, account_by_username}
use secret_git.Server.Throttling.{less, throttle_status}
use secret_git.Server.Http.{Service, Config, Response}
use secret_git.Server.Login.{handle_login, try_login, after_login}

-- The parameters that are stored for a new hash are read back.
params_read : parse_params format_params ≡ ok production
unfolding parse_params format_params text_beq
params_read = refl

decoy_read : hex_decode decoy_salt_hex ≡ some (replicate 16 171)
unfolding decoy_salt_hex hex_decode
decoy_read = refl

module _ ⦃lib : Library⦄ where
  verify_password_once :
      (password salt_hex params hash_hex : Text)
      → length (verify_password password salt_hex params hash_hex).1 ≤ 1
  unfolding verify_password compare_hash
  verify_password_once password salt_hex params hash_hex = ground arith

  login_as_once :
      (found : Result ServerError Account) (drawn password : Text) (expiry : ℕ) (db : Db)
      → length (login_as found drawn password expiry db).1 ≤ 1
  login_as_once (ok a) drawn password expiry db =
      verify_password_once password a.argon2_salt a.argon2_params a.argon2_hash
  login_as_once (err e) drawn password expiry db =
      verify_password_once password decoy_salt_hex format_params decoy_hash_hex

  after_login-costs :
      (cfg : Config) (now : ℕ) (ip user : Text) (outcome : Result ServerError (Text × Db))
      (s : Service)
      → ((after_login cfg now ip user outcome s).1.costs ≡ s.costs)
        × ((after_login cfg now ip user outcome s).0.status ≢ 429)
        × ((after_login cfg now ip user outcome s).0.status ≢ 503)
  unfolding after_login
  after_login-costs cfg now ip user (ok (token, db)) s =
      (refl, (λ e. omega (arith, e)), (λ e. omega (arith, e)))
  after_login-costs cfg now ip user (err bad_token) s =
      (refl, (λ e. omega (arith, e)), (λ e. omega (arith, e)))
  after_login-costs cfg now ip user (err _) s =
      (refl, (λ e. omega (arith, e)), (λ e. omega (arith, e)))

  -- The runs of argon2id that a call pays for, added to those before.
  pub record Pays (s : Service) (out : Response × Service) : Type 0 where
    pub paid : List Cost
    pub total : out.1.costs ≡ s.costs ++ paid
    pub at_most_one : length paid ≤ 1
    pub throttled : out.0.status ≡ 429 → paid ≡ []
    pub busy : out.0.status ≡ 503 → paid ≡ []

  free : (s : Service) (out : Response × Service) → out.1.costs ≡ s.costs → Pays s out
  free s out e = record {
    paid = [];
    total = e ∙ sym (append-nil s.costs);
    at_most_one = omega arith;
    throttled = λ _. refl;
    busy = λ _. refl;
  }

  tried :
      (cfg : Config) (drawn : Text) (now : ℕ) (ip user password : Text) (s : Service)
      → Pays s (try_login cfg drawn now ip user password s)
  unfolding try_login login
  tried cfg drawn now ip user password s =
      let (same, not_429, not_503) =
        after_login-costs cfg now ip user (login drawn user password now cfg.token_ttl s.db).0
          (record s { costs = s.costs ++ (login drawn user password now cfg.token_ttl s.db).1 }) in
      record {
        paid = (login drawn user password now cfg.token_ttl s.db).1;
        total = same;
        at_most_one =
            login_as_once (account_by_username user s.db) drawn password (now + cfg.token_ttl) s.db;
        throttled = λ e. absurd (not_429 e);
        busy = λ e. absurd (not_503 e);
      }

  -- An attempt to log in runs argon2id at most once, and not at all where it is answered with 429
  -- (a window of the throttle is open) or 503 (no slot was free).
  pub handle_login-Pays :
      (cfg : Config) (drawn : Text) (now : ℕ) (ip : Text) (slot : Bool)
      (decoded : Option (Text × Text)) (s : Service)
      → Pays s (handle_login cfg drawn now ip slot decoded s)
  unfolding handle_login throttle_status
  handle_login-Pays cfg drawn now ip slot none s = free s _ refl
  handle_login-Pays cfg drawn now ip slot (some (user, password)) s =
      let (until, db) = throttle_status now ip user cfg.throttle_prune_grace s.db in
      let attempt = tried cfg drawn now ip user password (record s { db = db }) in
      let paying : Pays s (try_login cfg drawn now ip user password (record s { db = db })) =
        record {
          paid = attempt.paid;
          total = attempt.total;
          at_most_one = attempt.at_most_one;
          throttled = attempt.throttled;
          busy = attempt.busy;
        } in
      elim (Bool-cases (less now until)) [
        | inl t ↦ rw t (free s _ refl)
        | inr f ↦ elim (Bool-cases slot) [
          | inl t ↦ rw (f, t) paying
          | inr g ↦ rw (f, g) (free s _ refl)
        ]
      ]

  -- Logging in with an unknown username costs the same runs of argon2id as with a known one whose
  -- row has a salt of 16 bytes and the parameters that hashPassword stores.
  pub login_costs_same :
      (drawn known unknown password : Text) (salt : Text) (now ttl : ℕ) (db : Db) (a : Account)
      (e : ServerError)
      → account_by_username known db ≡ ok a
      → account_by_username unknown db ≡ err e
      → All IsByte salt
      → length salt ≡ argon_salt_len
      → a.argon2_salt ≡ hex_encode salt
      → a.argon2_params ≡ format_params
      → (login drawn known password now ttl db).1 ≡ (login drawn unknown password now ttl db).1
  unfolding login verify_password compare_hash
  login_costs_same drawn known unknown password salt now ttl db a e found missing bytes len sa pa =
      rw (found, missing, sa, pa, hex_decode-hex_encode salt bytes, decoy_read, params_read, len)
        refl
