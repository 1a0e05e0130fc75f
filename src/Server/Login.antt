-- ===== src/Server/Login.antt =====
-- internal/server/server.go: the unauthenticated entry points. The address that clientIP finds is
-- an argument, and so is whether acquireArgon2 got a slot before its timeout.
pub mod Costs
pub mod Throttled
pub mod Cleared
use secret_git.Prelude.{
  Text, ℕ, ◌-◌, Bool, ◌||◌, Option, none, some, [], ◌++◌, if◌then◌else◌, ◌==◌, nat_eq, text_eq,
  option_eq, Result, ok, err, unless, or_err,
}
use secret_git.Prelude.Results.{◌>>=◌, ◌>>◌}
use secret_git.Library.{Library}
use secret_git.Server.{ServerError, bad_token, used_or_expired, Db}
use secret_git.Server.Accounts.{consume_bootstrap, login}
use secret_git.Server.Repos.{consume_invite}
use secret_git.Server.Throttling.{less, throttle_status, throttle_fail, throttle_reset}
use secret_git.Server.Http.{Service, Config, Response, reply, reply_with, respond, or_reply}

-- 429 with Retry-After
abbrev too_many : ℕ → Response
too_many seconds = record { status = 429; etag = none; retry_after = some seconds; content = [] }

-- What handleLogin makes of the outcome of login: a wrong credential is counted in both scopes,
-- success clears both, and any other error leaves the rows alone.
unfoldable pub after_login :
    Config → ℕ → Text → Text → Result ServerError (Text × Db) → Service → Response × Service
after_login cfg now ip user (ok (token, db)) s =
    (reply_with 200 token, record s { db = throttle_reset ip user db })
after_login cfg now ip user (err bad_token) s = (
  reply 401,
  record s { db = throttle_fail now ip user cfg.login_backoff_base cfg.login_backoff_max s.db },
)
after_login cfg now ip user (err e) s = (reply 500, s)

module _ ⦃lib : Library⦄ where
  -- handleLogin once a slot is held: one call of login.
  unfoldable pub try_login : Config → Text → ℕ → Text → Text → Text → Service → Response × Service
  try_login cfg drawn now ip user password s =
      let (outcome, costs) = login drawn user password now cfg.token_ttl s.db in
      after_login cfg now ip user outcome (record s { costs = s.costs ++ costs })

  -- The decoded request is the username and the password.
  unfoldable pub handle_login :
      Config → Text → ℕ → Text → Bool → Option (Text × Text) → Service → Response × Service
  handle_login cfg drawn now ip slot none s = (reply 400, s)
  handle_login cfg drawn now ip slot (some (user, password)) s =
      let (blocked_until, db) = throttle_status now ip user cfg.throttle_prune_grace s.db in
      let pruned = record s { db = db } in
      if less now blocked_until
      then (too_many (blocked_until - now), pruned)
      else if slot
      then try_login cfg drawn now ip user password pruned
      else (reply 503, pruned)

  -- The decoded request is the token, the username and the password.
  unfoldable pub handle_bootstrap :
      Text → Option (Text × Text × Text) → Service → Response × Service
  handle_bootstrap salt decoded s =
      respond
        (do
          (token, username, password) ← or_err decoded (reply 400)
          unless (username == [] || password == []) (reply 400)
          db ←
              or_reply (consume_bootstrap salt token username password s.db)
                (λ e. elim e [ bad_token ↦ reply 401 | _ ↦ reply 400 ])
          ok (reply 201, record s { db = db }))
        s

  unfoldable pub handle_register :
      Text → ℕ → Option (Text × Text × Text) → Service → Response × Service
  handle_register salt now decoded s =
      respond
        (do
          (token, username, password) ← or_err decoded (reply 400)
          unless (username == [] || password == []) (reply 400)
          db ←
              or_reply (consume_invite salt token username password now s.db) (λ e. elim e [
                | bad_token ↦ reply 401
                | used_or_expired ↦ reply 401
                | _ ↦ reply 400
              ])
          ok (reply 201, record s { db = db }))
        s
