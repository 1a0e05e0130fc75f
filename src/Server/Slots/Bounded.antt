-- ===== src/Server/Slots/Bounded.antt =====
-- How many requests run argon2id at a time, over all events.
use secret_git.Prelude.{
  ◌⊎◌, inl, inr, some, ap, ℕ, suc, ◌<◌, ◌≤◌, ◌≡◌, ◌≢◌, true, none, List, [], ◌∷◌, nat_eq, length,
  arith,
}
use secret_git.Server.Slots.{
  Semaphore, send, receive, new_semaphore, sends, expires, acquire_argon2, Slots, Event, acquires,
  releases, is_running, without, happen, slots_after,
}

-- The slots of a server that was started for `max_concurrent` runs, at least one: no more requests
-- run than that, a free slot is given to a request that asks for it, and release never waits.
pub record IsBounded (max_concurrent : ℕ) (s : Slots) : Type 0 where
  pub within : 0 < max_concurrent → length s.running ≤ max_concurrent
  pub at_least_one : max_concurrent ≡ 0 → length s.running ≤ 1
  pub admits :
      (length s.running < max_concurrent) ⊎ (s.running ≡ [])
      → (sem : Semaphore) × (acquire_argon2 sends s.argon2_sem ≡ some (true, sem))
  pub frees : s.running ≢ [] → receive s.argon2_sem ≢ none

-- The channel holds one value for each request that runs.
record IsCounted (capacity : ℕ) (s : Slots) : Type 0 where
  sized : s.argon2_sem.capacity ≡ capacity
  counted : s.argon2_sem.held ≡ length s.running
  room : s.argon2_sem.held ≤ capacity

length-without :
    (r : ℕ) (xs : List ℕ) → is_running r xs ≡ true → length xs ≡ suc (length (without r xs))
unfolding is_running without
length-without r [] h = cc
length-without r (x ∷ xs) h = ground (arith, length-without r xs)

happen-IsCounted :
    (capacity : ℕ) (e : Event) (s : Slots) → IsCounted capacity s → IsCounted capacity (happen e s)
unfolding happen send receive
happen-IsCounted capacity (acquires r sends) s h = ground arith
happen-IsCounted capacity (acquires r expires) s h = ground arith
happen-IsCounted capacity (releases r) s h = ground (arith, length-without r s.running)

slots_after-IsCounted :
    (max_concurrent : ℕ) (es : List Event)
    → IsCounted (new_semaphore max_concurrent).capacity (slots_after max_concurrent es)
unfolding slots_after new_semaphore
slots_after-IsCounted max_concurrent [] = ground arith
slots_after-IsCounted max_concurrent (e ∷ es) =
    happen-IsCounted _ e (slots_after max_concurrent es) (slots_after-IsCounted max_concurrent es)

IsCounted-IsBounded :
    (max_concurrent : ℕ) (s : Slots)
    → IsCounted (new_semaphore max_concurrent).capacity s
    → IsBounded max_concurrent s
unfolding new_semaphore acquire_argon2 send receive
IsCounted-IsBounded max_concurrent s h = record {
  within = λ p. ground arith;
  at_least_one = λ p. ground arith;
  admits = λ p.
      let sem : Semaphore = record s.argon2_sem { held = suc s.argon2_sem.held } in
      (sem, elim p [ inl q ↦ ground arith | inr q ↦ ground (arith, ap length q) ]);
  frees = λ p. ground arith;
}

-- Whatever requests reach acquireArgon2, get a slot, give up or call release since the start, in
-- any order: no more of them hold a slot at a time than MaxConcurrentArgon2 says, or one where it
-- says none; a request that asks while fewer do, or none does, can take a slot; and release does
-- not wait.
pub running_bound :
    (max_concurrent : ℕ) (es : List Event)
    → IsBounded max_concurrent (slots_after max_concurrent es)
running_bound max_concurrent es =
    IsCounted-IsBounded max_concurrent _ (slots_after-IsCounted max_concurrent es)
