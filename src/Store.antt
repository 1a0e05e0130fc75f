-- ===== src/Store.antt =====
-- internal/store/store.go: the server as the client sees it. The operations are arbitrary
-- functions on a state, so a theorem about the client holds against any server.
pub mod Disk
pub mod Ideal
pub mod LocalFs
pub mod HttpStore
use secret_git.Prelude.{Text, ℕ, Bool, Option}
use secret_git.Exec.{Exec}

pub record Store (S : Type 0) : Type 0 where
  pub put_blob : Text → Text → Exec S (Unit {0})
  pub get_blob : Text → Exec S Text
  pub has_blob : Text → Exec S Bool
  pub delete_blob : Text → Exec S (Unit {0})
  -- The blob is `none` where Go returns nil.
  pub get_manifest : Exec S (Option Text × ℕ)
  pub cas_manifest : ℕ → Text → ℕ → Exec S (Unit {0})
  pub get_roster : Exec S (Option Text × ℕ)
  pub cas_roster : ℕ → Text → ℕ → Exec S (Unit {0})
  pub put_keyfile : Text → Exec S (Unit {0})
  pub get_keyfile : Exec S Text
