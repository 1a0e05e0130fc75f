-- ===== src/Server/Throttling.antt =====
-- internal/server/throttle.go: the login backoff, its rows, and the limit on argon2id runs.
-- A time.Duration is an int64 of nanoseconds, and a window an int64 of seconds.
pub mod Backoff
use secret_git.Prelude.{
  Text, codes, ℕ, zero, suc, ◌+◌, ◌-◌, ◌*◌, ◌/◌, ◌%◌, ◌^◌, Bool, true, false, ◌&&◌, ◌||◌, Option,
  none, some, List, [], ◌∷◌, if◌then◌else◌, ◌==◌, nat_eq, text_eq, option_eq, leb, ltb, find_where,
  delete_where,
}
use secret_git.Server.{Throttle, Db}

-- An int64, as its residue modulo 2 ^ 64, and what Go computes with it.
abbrev pub wrap : ℕ → ℕ
wrap n = n % 2 ^ 64

abbrev pub is_negative : ℕ → Bool
is_negative a = leb (2 ^ 63) a

abbrev pub less : ℕ → ℕ → Bool
less a b = ltb (wrap (a + 2 ^ 63)) (wrap (b + 2 ^ 63))

abbrev pub second : ℕ
second = 1_000_000_000

-- b / time.Second, towards zero.
abbrev pub seconds_of : ℕ → ℕ
seconds_of b = if is_negative b then wrap (2 ^ 64 - (2 ^ 64 - b) / second) else b / second

-- The loop of backoffSeconds: b doubles until it reaches the maximum; the first argument counts
-- the rounds that are left.
unfoldable pub double_until : ℕ → ℕ → ℕ → ℕ
double_until zero b max = b
double_until (suc k) b max = elim (less (wrap (b * 2)) max) [
  | false ↦ max
  | true ↦ double_until k (wrap (b * 2)) max
]

-- backoffSeconds
unfoldable pub backoff_seconds : ℕ → ℕ → ℕ → ℕ
unfolding double_until
backoff_seconds zero base max = 0
backoff_seconds (suc k) base max =
    let b = double_until k base max in seconds_of (if less max b then max else b)

abbrev pub scope_ip : Text
scope_ip = codes "ip"

abbrev pub scope_user : Text
scope_user = codes "user"

abbrev pub is_row : Text → Text → Throttle → Bool
is_row scope key t = t.scope == scope && t.key == key

-- The rows of one attempt: its address and its username.
abbrev pub is_either_row : Text → Text → Throttle → Bool
is_either_row ip user t = is_row scope_ip ip t || is_row scope_user user t

-- The latest window of the rows.
unfoldable pub latest_window : List Throttle → ℕ → ℕ
latest_window [] until = until
latest_window (t ∷ ts) until =
    latest_window ts (if less until t.window_until then t.window_until else until)

-- The rows that pass the test, in place of SELECT.
unfoldable pub select_where : (Throttle → Bool) → List Throttle → List Throttle
select_where p [] = []
select_where p (t ∷ ts) = if p t then t ∷ select_where p ts else select_where p ts

-- throttleStatus: it prunes the rows whose window ended before the grace period.
unfoldable pub throttle_status : ℕ → Text → Text → ℕ → Db → ℕ × Db
unfolding latest_window select_where
throttle_status now ip user grace db =
    let rows =
      delete_where (λ t. less t.window_until (wrap (now + 2 ^ 64 - grace))) db.login_throttle in
    (
      latest_window (select_where (is_either_row ip user) rows) 0,
      record db { login_throttle = rows },
    )

abbrev pub fail_count_of : Option Throttle → ℕ
fail_count_of none = 0
fail_count_of (some t) = t.fail_count

-- INSERT ... ON CONFLICT(scope, key) DO UPDATE
unfoldable pub put_row : Throttle → List Throttle → List Throttle
put_row row [] = row ∷ []
put_row row (t ∷ ts) =
    let rest = put_row row ts in if is_row row.scope row.key t then row ∷ ts else t ∷ rest

-- One scope of throttleFail.
unfoldable pub bump : ℕ → ℕ → ℕ → Text → Text → List Throttle → List Throttle
unfolding backoff_seconds put_row
bump now base max scope key rows =
    let fails = suc (fail_count_of (find_where (is_row scope key) rows)) in
    put_row
      (record {
        scope = scope;
        key = key;
        fail_count = fails;
        window_until = wrap (now + backoff_seconds fails base max);
        updated_at = now;
      })
      rows

-- throttleFail
unfoldable pub throttle_fail : ℕ → Text → Text → ℕ → ℕ → Db → Db
unfolding bump
throttle_fail now ip user base max db = record db {
  login_throttle =
      bump now base max scope_user user (bump now base max scope_ip ip db.login_throttle);
}

-- throttleReset
unfoldable pub throttle_reset : Text → Text → Db → Db
throttle_reset ip user db = record db {
  login_throttle = delete_where (is_either_row ip user) db.login_throttle;
}
