-- ===== src/Command/Runs.antt =====
-- cmd/encgit/main.go: the commands that act on an engine, from the arguments that were parsed to
-- the operation of the engine. They act on an engine in which only the world and the member are
-- set, as engineFlags.open leaves it.
pub mod Pins
use secret_git.Prelude.{
  Text, Bool, true, false, ◌||◌, not, Option, none, some, List, [], ◌∷◌, ◌==◌, nat_eq, text_eq,
  Result, ok, err, guard,
}
use secret_git.Library.{Library}
use secret_git.Errors.{Error, missing_settings}
use secret_git.Exec.{Exec, pure, lift, ◌>>=◌, ◌>>◌}
use secret_git.Store.{Store}
use secret_git.Git.{Git}
use secret_git.Client.{Decoders, Engine}
use secret_git.Client.Setup.{open_engine, init}
use secret_git.Client.Push
use secret_git.Client.Fetch
use secret_git.Client.Members
use secret_git.Command.Seeds.{parse_32_hex}

-- A command with its arguments.
pub data Run : Type 0 where
  push : (refs : List Text) → Run
  fetch : Run
  member_add : (name x25519 ed25519 fingerprint : Text) → Run
  member_remove : (fingerprint : Text) → Run
  rekey : Run

module _ {S G : Type 0} ⦃lib : Library⦄ ⦃dec : Decoders⦄ ⦃store : Store S⦄ ⦃git : Git G⦄ where
  unfoldable pub cmd_push : List Text → Text → Exec (Engine S G) (Unit {0})
  cmd_push refs repo_id = do open_engine repo_id; Push.push refs

  unfoldable pub cmd_fetch : Text → Exec (Engine S G) (Unit {0})
  cmd_fetch repo_id = do open_engine repo_id; Fetch.fetch

  unfoldable pub cmd_member_add : Text → Text → Text → Text → Text → Exec (Engine S G) (Unit {0})
  unfolding parse_32_hex
  cmd_member_add name x25519 ed25519 fingerprint repo_id = do
    lift (
        guard (not (name == [] || x25519 == [] || ed25519 == [] || fingerprint == []))
          missing_settings)
    x_pub ← lift (parse_32_hex x25519)
    ed_pub ← lift (parse_32_hex ed25519)
    open_engine repo_id
    Members.add_member name x_pub ed_pub fingerprint

  unfoldable pub cmd_member_remove : Text → Text → Exec (Engine S G) (Unit {0})
  cmd_member_remove fingerprint repo_id = do
    lift (guard (not (fingerprint == [])) missing_settings)
    open_engine repo_id
    Members.remove_member fingerprint

  unfoldable pub cmd_rekey : Text → Exec (Engine S G) (Unit {0})
  cmd_rekey repo_id = do open_engine repo_id; Members.full_rekey

  -- The switch of main.
  unfoldable pub execute : Run → Text → Exec (Engine S G) (Unit {0})
  execute (push refs) repo_id = cmd_push refs repo_id
  execute fetch repo_id = cmd_fetch repo_id
  execute (member_add name x25519 ed25519 fingerprint) repo_id =
      cmd_member_add name x25519 ed25519 fingerprint repo_id
  execute (member_remove fingerprint) repo_id = cmd_member_remove fingerprint repo_id
  execute rekey repo_id = cmd_rekey repo_id
