-- ===== src/Command/Genesis.antt =====
-- publishGenesis of cmd/encgit/transport.go: the keyfile and the first roster of a local store are
-- copied to a server that has none. It acts on the states of both stores.
pub mod Unclobbered
use secret_git.Prelude.{
  Text, ℕ, Bool, true, false, ◌||◌, ◌&&◌, Option, none, some, if◌then◌else◌, ◌==◌, nat_eq, text_eq,
  Result, ok, err, or_err,
}
use secret_git.Errors.{Error, not_found, no_genesis, keyfile_differs, roster_differs}
use secret_git.Exec.{Exec, pure, raise, lift, attempt, ◌>>=◌, ◌>>◌}
use secret_git.Store.{Store}

module _ {L R : Type 0} where
  unfoldable pub on_local : {A : Type 0} → Exec L A → Exec (L × R) A
  on_local m (l, r) = let (a, l') = m l in (a, (l', r))

  unfoldable pub on_remote : {A : Type 0} → Exec R A → Exec (L × R) A
  on_remote m (l, r) = let (a, r') = m r in (a, (l, r'))

  module _ (local : Store L) (remote : Store R) where
    -- The keyfile, by what the server returned for its own: whether it was published.
    abbrev pub send_keyfile : Result Error Text → Text → Exec (L × R) Bool
    send_keyfile (ok existing) keyfile =
        if existing == keyfile then pure false else raise keyfile_differs
    send_keyfile (err not_found) keyfile = do on_remote (remote.put_keyfile keyfile); pure true
    send_keyfile (err e) keyfile = raise e

    -- The roster, by what the server returned for its own.
    abbrev pub send_roster : Option Text × ℕ → Text → Exec (L × R) Bool
    send_roster (none, version) roster = do on_remote (remote.cas_roster 0 roster 0); pure true
    send_roster (some existing, version) roster =
        if version == 0 && existing == roster then pure false else raise roster_differs

    -- publishGenesis; it returns what its last message says, whether anything was published.
    unfoldable pub publish_genesis : Exec (L × R) Bool
    unfolding on_local on_remote
    publish_genesis = do
      keyfile ← on_local local.get_keyfile
      pointer ← on_local local.get_roster
      roster ← lift (or_err pointer.0 no_genesis)
      existing ← attempt (on_remote remote.get_keyfile)
      new_keyfile ← send_keyfile existing keyfile
      current ← on_remote remote.get_roster
      new_roster ← send_roster current roster
      pure (new_keyfile || new_roster)
