-- ===== src/Command/Runs/Pins.antt =====
-- A whole `encgit fetch` against an arbitrary server: opening the engine, and Fetch.
use secret_git.Prelude.{Text, ◌≡◌, refl, ◌∙◌, ap, subst, nat_eq, text_eq}
use secret_git.Library.{Library}
use secret_git.Exec.{modify}
use secret_git.Exec.Keeps.{Keeps, keeps_rules, Keeps-Ends}
use secret_git.Exec.Ends.{Ends, Ends-bind, Ends-weaken}
use secret_git.Roster.{Roster}
use secret_git.LocalState.{State, load}
use secret_git.Store.{Store}
use secret_git.Git.{Git}
use secret_git.Client.{Decoders, Engine}
use secret_git.Client.Setup.{open_engine, unopened}
use secret_git.Client.Fetch.Accepts.{Accepts, unchanged, accepted, Follows, pins_of, manifest_pin}
use secret_git.Client.Fetch.Pins.{refresh_pack_keys-Keeps}
use secret_git.Client.Fetch.Safety.{Fetched, fetch-Fetched}
use secret_git.Command.Runs.{cmd_fetch}

module _ {S G : Type 0} where
  unopened-Keeps :
      (repo_id : Text)
      → Keeps
          (pins_of {S = S} {G = G})
          (modify (λ e. unopened e.server e.file e.git_dir e.entropy e.member repo_id))
  unfolding modify
  unopened-Keeps repo_id = record { at = λ e. refl }

module _ {S G : Type 0} ⦃lib : Library⦄ ⦃store : Store S⦄ where
  open_engine-Keeps : (repo_id : Text) → Keeps (pins_of {S = S} {G = G}) (open_engine repo_id)
  unfolding open_engine
  open_engine-Keeps repo_id = search (keeps_rules, unopened-Keeps, refresh_pack_keys-Keeps) depth 12

module _ ⦃lib : Library⦄ ⦃dec : Decoders⦄ where
  -- Only the manifest pin of the earlier state counts.
  Accepts-manifest_pin :
      {trusted : Roster} {st0 st st' : State}
      → manifest_pin st0 ≡ manifest_pin st
      → Accepts trusted st0 st'
      → Accepts trusted st st'
  Accepts-manifest_pin h (unchanged e) = unchanged (e ∙ h)
  Accepts-manifest_pin h (accepted plain m a b f e) =
      accepted plain m a b (subst (λ p. Follows p m) h f) e

  Fetched-manifest_pin :
      {st0 st st' : State} → manifest_pin st0 ≡ manifest_pin st → Fetched st0 st' → Fetched st st'
  Fetched-manifest_pin h k = record {
    trusted = k.trusted;
    roster_saved = k.roster_saved;
    accepts = Accepts-manifest_pin h k.accepts;
  }

module _ {S G : Type 0} ⦃lib : Library⦄ ⦃dec : Decoders⦄ ⦃store : Store S⦄ ⦃git : Git G⦄ where
  -- Where `encgit fetch` returns without an error, the state that it saved follows the pins that
  -- the state file held when it started, as Fetch promises; where it fails anywhere, also before
  -- Fetch, the manifest pin is the one that the state file held.
  pub cmd_fetch-Fetched :
      (repo_id : Text) (e : Engine S G)
      → Ends
          (λ _ t. Fetched (load e.file) (load t.file))
          (λ t. manifest_pin (load t.file) ≡ manifest_pin (load e.file))
          (cmd_fetch repo_id e)
  unfolding cmd_fetch
  cmd_fetch-Fetched repo_id e =
      Ends-bind (open_engine repo_id) _ e
        (Ends-weaken (Keeps-Ends _ e (open_engine-Keeps repo_id) refl) (λ _ t h. h)
          (λ t h. ap manifest_pin h))
        (λ _ t h.
          Ends-weaken (fetch-Fetched t) (λ _ u k. Fetched-manifest_pin (ap manifest_pin h) k)
            (λ u k. k ∙ ap manifest_pin h))
