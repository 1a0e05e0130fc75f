-- ===== src/Server/Histories/Calls.antt =====
-- The invariant of the service, for each call of internal/server/server.go.
use secret_git.Prelude.{
  Text, ℕ, ◌≡◌, ◌≢◌, refl, ap, Bool, ◌||◌, Option, none, some, [], ◌∷◌, ◌==◌, nat_eq, text_eq,
  option_eq, Result, ok, err, guard, unless, or_err, length, arith,
}
use secret_git.Library.{Library}
use secret_git.Prelude.{Bool-cases, inl, inr}
use secret_git.Server.{ServerError, bad_token, Db, role_reader, role_writer}
use secret_git.Server.Accounts
use secret_git.Server.Accounts.{
  admin_count, consume_bootstrap, ensure_bootstrap, account_by_username,
}
use secret_git.Server.Accounts.Ledger.{
  SameAccounts, SameAccounts-IsLedger, consume_bootstrap-IsLedger, consume_invite-IsLedger,
  disable_account-IsLedger, enable_account-IsLedger,
}
use secret_git.Server.Repos
use secret_git.Server.Files.{safe_name}
use secret_git.Server.Repos.{consume_invite, repo_exists, grant_access}
use secret_git.Server.Throttling.{less, throttle_status, throttle_fail, throttle_reset}
use secret_git.Server.Http.{Service, Config, Request, reply, respond, or_reply, auth_admin}
use secret_git.Server.Http.Outcomes.{Yields-ok, Yields-bind, Leaves, respond-Leaves, or_reply-eq-ok}
use secret_git.Server.Handlers.{
  handle_create_repo, handle_create_invite, handle_disable_account, handle_enable_account,
  grant_founder,
}
use secret_git.Server.Login.{
  handle_login, handle_bootstrap, handle_register, try_login, after_login,
}
use secret_git.Server.Routes.{DataRoute, serve_data}
use secret_git.Server.Routes.Contents.{serve_data-IsNamed}
use secret_git.Server.Routes.Isolation.{serve_data-SameRepo}
use secret_git.Server.Histories.{IsHealthy, same}

module _ ⦃lib : Library⦄ where
  longer_ne : (repo_id : Text) → repo_id ≢ 0 ∷ repo_id
  longer_ne repo_id e = omega (arith, ap (λ (t : Text). length t) e)

  pub data_call-IsHealthy :
      (route : DataRoute) (r : Request) (repo_id : Text) (now : ℕ) (s : Service)
      → IsHealthy s
      → Leaves IsHealthy (serve_data route r repo_id now s)
  data_call-IsHealthy route r repo_id now s h =
      let other =
        (serve_data-SameRepo route r repo_id (0 ∷ repo_id) now s (longer_ne repo_id)).after in
      record {
        after = record {
          named = (serve_data-IsNamed route r repo_id now s h.named).after;
          ledger =
              SameAccounts-IsLedger
                record { accounts = other.accounts; next_account = other.next_account } h.ledger;
        };
      }

  pub bootstrap-IsHealthy :
      (salt : Text) (decoded : Option (Text × Text × Text)) (s : Service)
      → IsHealthy s
      → Leaves IsHealthy (handle_bootstrap salt decoded s)
  unfolding handle_bootstrap
  bootstrap-IsHealthy salt decoded s h = respond-Leaves s h (
      Yields-bind (or_err decoded (reply 400)) λ (token, username, password) _.
        Yields-bind (unless (username == [] || password == []) (reply 400)) λ _ _.
          Yields-bind (or_reply (consume_bootstrap salt token username password s.db) _) λ db e.
            Yields-ok _ record {
              named = h.named;
              ledger =
                  consume_bootstrap-IsLedger salt token username password s.db db
                    (or_reply-eq-ok _ _ e) h.ledger;
            })

  pub register-IsHealthy :
      (salt : Text) (now : ℕ) (decoded : Option (Text × Text × Text)) (s : Service)
      → IsHealthy s
      → Leaves IsHealthy (handle_register salt now decoded s)
  unfolding handle_register
  register-IsHealthy salt now decoded s h = respond-Leaves s h (
      Yields-bind (or_err decoded (reply 400)) λ (token, username, password) _.
        Yields-bind (unless (username == [] || password == []) (reply 400)) λ _ _.
          Yields-bind (or_reply (consume_invite salt token username password now s.db) _) λ db e.
            Yields-ok _ record {
              named = h.named;
              ledger =
                  consume_invite-IsLedger salt token username password now s.db db
                    (or_reply-eq-ok _ _ e) h.ledger;
            })

  pub disable-IsHealthy :
      (r : Request) (username : Text) (now : ℕ) (s : Service)
      → IsHealthy s
      → Leaves IsHealthy (handle_disable_account r username now s)
  unfolding handle_disable_account
  disable-IsHealthy r username now s h = respond-Leaves s h (
      Yields-bind (auth_admin r now s) λ _ _.
        Yields-bind (or_reply (Accounts.disable_account username s.db) _) λ db e.
          Yields-ok _ record {
            named = h.named;
            ledger = disable_account-IsLedger username s.db db (or_reply-eq-ok _ _ e) h.ledger;
          })

  pub enable-IsHealthy :
      (r : Request) (username : Text) (now : ℕ) (s : Service)
      → IsHealthy s
      → Leaves IsHealthy (handle_enable_account r username now s)
  unfolding handle_enable_account
  enable-IsHealthy r username now s h = respond-Leaves s h (
      Yields-bind (auth_admin r now s) λ _ _.
        Yields-bind (or_reply (Accounts.enable_account username s.db) _) λ db e.
          Yields-ok _ record {
            named = h.named;
            ledger = enable_account-IsLedger username s.db db (or_reply-eq-ok _ _ e) h.ledger;
          })

  create_repo_keeps :
      (repo_id : Text) (now : ℕ) (s : Service) (db : Db)
      → Repos.create_repo repo_id now s.db ≡ ok db
      → IsHealthy s
      → IsHealthy (record s { db = db })
  unfolding Repos.create_repo
  create_repo_keeps repo_id now s db e h = same s db (ground arith) (ground arith) h

  grant_founder-IsHealthy :
      (founder repo_id : Text) (s : Service)
      → IsHealthy s
      → IsHealthy (grant_founder founder repo_id s).1
  unfolding grant_founder grant_access respond
  grant_founder-IsHealthy founder repo_id s h = record {
    named = ground (arith, h.named);
    ledger =
        SameAccounts-IsLedger record { accounts = ground arith; next_account = ground arith }
          h.ledger;
  }

  pub create_repo-IsHealthy :
      (r : Request) (decoded : Option (Text × Text)) (now : ℕ) (s : Service)
      → IsHealthy s
      → Leaves IsHealthy (handle_create_repo r decoded now s)
  unfolding handle_create_repo
  create_repo-IsHealthy r decoded now s h = respond-Leaves s h (
      Yields-bind (auth_admin r now s) λ _ _.
        Yields-bind (or_err decoded (reply 400)) λ (repo_id, founder) _.
          Yields-bind (guard (safe_name repo_id) (reply 400)) λ _ _.
            Yields-bind (or_reply (Repos.create_repo repo_id now s.db) _) λ db e. Yields-ok _ (
              grant_founder-IsHealthy founder repo_id (record s { db = db })
                (create_repo_keeps repo_id now s db (or_reply-eq-ok _ _ e) h)))

  create_invite_keeps :
      (drawn repo_id role token : Text) (now ttl : ℕ) (s : Service) (db : Db)
      → Repos.create_invite drawn repo_id role now ttl s.db ≡ ok (token, db)
      → IsHealthy s
      → IsHealthy (record s { db = db })
  unfolding Repos.create_invite
  create_invite_keeps drawn repo_id role token now ttl s db e h =
      same s db (ground arith) (ground arith) h

  pub create_invite-IsHealthy :
      (cfg : Config) (drawn : Text) (r : Request) (repo_id : Text) (decoded : Option Text) (now : ℕ)
      (s : Service)
      → IsHealthy s
      → Leaves IsHealthy (handle_create_invite cfg drawn r repo_id decoded now s)
  unfolding handle_create_invite
  create_invite-IsHealthy cfg drawn r repo_id decoded now s h = respond-Leaves s h (
      Yields-bind (auth_admin r now s) λ _ _.
        Yields-bind (guard (repo_exists repo_id s.db) (reply 404)) λ _ _.
          Yields-bind (or_err decoded (reply 400)) λ role _.
            Yields-bind (guard (role == role_reader || role == role_writer) (reply 400)) λ _ _.
              Yields-bind
                (or_reply (Repos.create_invite drawn repo_id role now cfg.invite_ttl s.db) _)
                λ (token, db) e. Yields-ok _ (
                  create_invite_keeps drawn repo_id role token now cfg.invite_ttl s db
                    (or_reply-eq-ok _ _ e) h))

  login_accounts :
      (drawn user password token : Text) (now ttl : ℕ) (db db' : Db)
      → (Accounts.login drawn user password now ttl db).0 ≡ ok (token, db')
      → SameAccounts db db'
  unfolding Accounts.login Accounts.issue_token
  login_accounts drawn user password token now ttl db db' e = record {
    accounts = ground arith;
    next_account = ground arith;
  }

  after_login-IsHealthy :
      (cfg : Config) (now : ℕ) (ip user : Text) (outcome : Result ServerError (Text × Db))
      (s : Service)
      → ((token : Text) (db : Db) → outcome ≡ ok (token, db) → SameAccounts s.db db)
      → IsHealthy s
      → IsHealthy (after_login cfg now ip user outcome s).1
  unfolding after_login throttle_reset throttle_fail
  after_login-IsHealthy cfg now ip user (ok (token, db)) s keep h =
      same s _ (keep token db refl).accounts (keep token db refl).next_account h
  after_login-IsHealthy cfg now ip user (err bad_token) s keep h = same s _ refl refl h
  after_login-IsHealthy cfg now ip user (err _) s keep h = h

  pub login-IsHealthy :
      (cfg : Config) (drawn : Text) (now : ℕ) (ip : Text) (slot : Bool)
      (decoded : Option (Text × Text)) (s : Service)
      → IsHealthy s
      → IsHealthy (handle_login cfg drawn now ip slot decoded s).1
  unfolding handle_login try_login throttle_status
  login-IsHealthy cfg drawn now ip slot none s h = h
  login-IsHealthy cfg drawn now ip slot (some (user, password)) s h =
      let (until, db) = throttle_status now ip user cfg.throttle_prune_grace s.db in
      let pruned : IsHealthy (record s { db = db }) = same s db refl refl h in
      let tried : IsHealthy (try_login cfg drawn now ip user password (record s { db = db })).1 =
        after_login-IsHealthy cfg now ip user _ _
          (λ token db' e. login_accounts drawn user password token now cfg.token_ttl db db' e)
          record { named = pruned.named; ledger = pruned.ledger } in
      elim (Bool-cases (less now until)) [
        | inl t ↦ rw t pruned
        | inr f ↦ elim (Bool-cases slot) [ inl t ↦ rw (f, t) tried | inr g ↦ rw (f, g) pruned ]
      ]
