-- ===== src/Server/Histories.antt =====
-- internal/server: the services that calls reach from an empty database and an empty disk.
pub mod Calls
pub mod Invariant
use secret_git.Prelude.{
  Text, ℕ, ◌≡◌, ◌≢◌, refl, ap, Bool, ◌||◌, Option, none, some, [], ◌∷◌, ◌==◌, nat_eq, text_eq,
  option_eq, Result, ok, err, guard, unless, or_err, length, ltb, count_where, arith,
}
use secret_git.Library.{Library}
use secret_git.Prelude.{All, Bool-cases, inl, inr}
use secret_git.Server.{ServerError, bad_token, Db, empty_db, role_reader, role_writer}
use secret_git.Server.Accounts
use secret_git.Server.Accounts.{
  admin_count, consume_bootstrap, ensure_bootstrap, account_by_username,
}
use secret_git.Server.Accounts.Ledger.{
  IsLedger, SameAccounts, SameAccounts-IsLedger, consume_bootstrap-IsLedger,
  consume_invite-IsLedger, disable_account-IsLedger, enable_account-IsLedger,
}
use secret_git.Server.Repos
use secret_git.Server.Files.{safe_name}
use secret_git.Server.Repos.{consume_invite, repo_exists, grant_access}
use secret_git.Server.Throttling.{throttle_status, throttle_fail, throttle_reset}
use secret_git.Server.Http.{Service, Config, Request, reply, respond, or_reply, auth_admin}
use secret_git.Server.Http.Outcomes.{Yields-ok, Yields-bind, Leaves, respond-Leaves, or_reply-eq-ok}
use secret_git.Server.Handlers.{
  handle_create_repo, handle_create_invite, handle_disable_account, handle_enable_account,
  grant_founder,
}
use secret_git.Server.Login.{
  handle_login, handle_bootstrap, handle_register, try_login, after_login,
}
use secret_git.Server.Routes.{
  DataRoute, Call, data_call, bootstrap, register, login, create_repo, create_invite,
  disable_account, enable_account, serve, serve_data,
}
use secret_git.Server.Routes.Contents.{IsNamed, serve_data-IsNamed}
use secret_git.Server.Routes.Isolation.{serve_data-SameRepo}

module _ ⦃lib : Library⦄ where
  -- The server starts, which may issue a bootstrap token, and answers calls in any order.
  pub data Reachable (cfg : Config) : Service → Type 0 where
    empty : Reachable cfg (record { db = empty_db; files = []; costs = [] })
    started :
        (drawn : Text) {s : Service}
        → Reachable cfg s
        → Reachable cfg (record s { db = (ensure_bootstrap drawn s.db).1 })
    answered :
        (call : Call) (now : ℕ) {s : Service}
        → Reachable cfg s
        → Reachable cfg (serve cfg call now s).1

  pub record IsHealthy (s : Service) : Type 0 where
    pub named : All IsNamed s.files
    pub ledger : IsLedger s.db

  pub same :
      (s : Service) (db : Db)
      → db.accounts ≡ s.db.accounts
      → db.next_account ≡ s.db.next_account
      → IsHealthy s
      → IsHealthy (record s { db = db })
  same s db a n h = record {
    named = h.named;
    ledger = SameAccounts-IsLedger record { accounts = a; next_account = n } h.ledger;
  }
