-- ===== src/Server/Slots.antt =====
-- acquireArgon2 of internal/server/throttle.go over the channel argon2Sem that New of server.go
-- makes, and the requests of handleLogin that hold a slot, one event after the other.
pub mod Bounded
use secret_git.Prelude.{
  ℕ, zero, suc, ◌==◌, ◌||◌, nat_eq, Bool, true, false, Option, none, some, List, [], ◌∷◌, ltb,
  if◌then◌else◌,
}

-- A buffered channel of values without content: its capacity, and how many values it holds.
pub record Semaphore : Type 0 where
  pub capacity : ℕ
  pub held : ℕ

-- A send proceeds where there is room, a receive where there is a value; `none` where it waits.
unfoldable pub send : Semaphore → Option Semaphore
send sem = if ltb sem.held sem.capacity then some (record sem { held = suc sem.held }) else none

abbrev received : ℕ → ℕ → Option Semaphore
received capacity zero = none
received capacity (suc n) = some (record { capacity = capacity; held = n })

unfoldable pub receive : Semaphore → Option Semaphore
receive sem = received sem.capacity sem.held

-- The channel that New makes.
unfoldable pub new_semaphore : ℕ → Semaphore
new_semaphore max_concurrent = record {
  capacity = if ltb max_concurrent 1 then 1 else max_concurrent;
  held = 0;
}

-- The case of the select that is taken: the send, or the timer.
pub data Case : Type 0 where
  sends expires : Case

-- acquireArgon2, with the channel afterwards; `none` where the send is not ready, and waits.
unfoldable pub acquire_argon2 : Case → Semaphore → Option (Bool × Semaphore)
unfolding send
acquire_argon2 sends sem = elim (send sem) [ none ↦ none | some sem' ↦ some (true, sem') ]
acquire_argon2 expires sem = some (false, sem)

-- The channel, and the requests that got a slot and have not called release.
pub record Slots : Type 0 where
  pub argon2_sem : Semaphore
  pub running : List ℕ

-- A request of handleLogin is at acquireArgon2, or it calls release.
pub data Event : Type 0 where
  acquires : (request : ℕ) → Case → Event
  releases : (request : ℕ) → Event

unfoldable pub is_running : ℕ → List ℕ → Bool
is_running r [] = false
is_running r (x ∷ xs) = x == r || is_running r xs

unfoldable pub without : ℕ → List ℕ → List ℕ
without r [] = []
without r (x ∷ xs) = let rest = without r xs in if x == r then xs else x ∷ rest

-- What handleLogin does with the result: it runs argon2id, answers 503, or still waits.
abbrev pub admitted : ℕ → Slots → Option (Bool × Semaphore) → Slots
admitted r s none = s
admitted r s (some (true, sem)) = record { argon2_sem = sem; running = r ∷ s.running }
admitted r s (some (false, sem)) = record { argon2_sem = sem; running = s.running }

abbrev pub released : ℕ → Slots → Option Semaphore → Slots
released r s none = s
released r s (some sem) = record { argon2_sem = sem; running = without r s.running }

unfoldable pub happen : Event → Slots → Slots
unfolding acquire_argon2 receive is_running without
happen (acquires r taken) s = admitted r s (acquire_argon2 taken s.argon2_sem)
happen (releases r) s = if is_running r s.running then released r s (receive s.argon2_sem) else s

-- The slots after events, the latest first in the list.
unfoldable pub slots_after : ℕ → List Event → Slots
unfolding happen new_semaphore
slots_after max_concurrent [] = record { argon2_sem = new_semaphore max_concurrent; running = [] }
slots_after max_concurrent (e ∷ es) = happen e (slots_after max_concurrent es)
