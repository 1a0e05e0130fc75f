-- ===== src/Server/Histories/Invariant.antt =====
-- The invariant of the service, over all calls.
use secret_git.Prelude.{Text, ℕ, nat_eq, text_eq, option_eq, count_where, arith}
use secret_git.Library.{Library}
use secret_git.Server.Accounts.{admin_count, ensure_bootstrap}
use secret_git.Server.Http.{Service, Config}
use secret_git.Server.Routes.{
  Call, data_call, bootstrap, register, login, create_repo, create_invite, disable_account,
  enable_account, serve,
}
use secret_git.Server.Histories.{Reachable, empty, started, answered, IsHealthy, same}
use secret_git.Server.Histories.Calls.{
  data_call-IsHealthy, bootstrap-IsHealthy, register-IsHealthy, disable-IsHealthy, enable-IsHealthy,
  create_repo-IsHealthy, create_invite-IsHealthy, login-IsHealthy,
}

module _ ⦃lib : Library⦄ where
  ensure_bootstrap_keeps :
      (drawn : Text) (s : Service)
      → IsHealthy s
      → IsHealthy (record s { db = (ensure_bootstrap drawn s.db).1 })
  unfolding ensure_bootstrap
  ensure_bootstrap_keeps drawn s h = same s _ (ground arith) (ground arith) h

  serve-IsHealthy :
      (cfg : Config) (call : Call) (now : ℕ) (s : Service)
      → IsHealthy s
      → IsHealthy (serve cfg call now s).1
  unfolding serve
  serve-IsHealthy cfg (data_call route r repo_id) now s h =
      (data_call-IsHealthy route r repo_id now s h).after
  serve-IsHealthy cfg (bootstrap salt decoded) now s h =
      (bootstrap-IsHealthy salt decoded s h).after
  serve-IsHealthy cfg (register salt decoded) now s h =
      (register-IsHealthy salt now decoded s h).after
  serve-IsHealthy cfg (login drawn ip slot decoded) now s h =
      login-IsHealthy cfg drawn now ip slot decoded s h
  serve-IsHealthy cfg (create_repo r decoded) now s h =
      (create_repo-IsHealthy r decoded now s h).after
  serve-IsHealthy cfg (create_invite drawn r repo_id decoded) now s h =
      (create_invite-IsHealthy cfg drawn r repo_id decoded now s h).after
  serve-IsHealthy cfg (disable_account r username) now s h =
      (disable-IsHealthy r username now s h).after
  serve-IsHealthy cfg (enable_account r username) now s h =
      (enable-IsHealthy r username now s h).after

  -- Whatever calls were answered since the server started with an empty database: every file but a
  -- keyfile holds what its name is the hash of, the accounts have distinct ids below the next one,
  -- and if there is an administrator, one is enabled.
  pub Reachable-IsHealthy : (cfg : Config) (s : Service) → Reachable cfg s → IsHealthy s
  unfolding admin_count count_where
  Reachable-IsHealthy cfg _ empty = record {
    named = tt;
    ledger = record {
      sound = record { distinct = tt; below = tt };
      governed = λ h. omega (arith, h);
    };
  }
  Reachable-IsHealthy cfg _ (started drawn {s} reached) =
      ensure_bootstrap_keeps drawn s (Reachable-IsHealthy cfg s reached)
  Reachable-IsHealthy cfg _ (answered call now {s} reached) =
      serve-IsHealthy cfg call now s (Reachable-IsHealthy cfg s reached)
