-- ===== src/Client/Frames.antt =====
-- What the engine's steps leave alone: most of them never touch the local state file.
use secret_git.Prelude.{
  Text, Option, List, [], ◌∷◌, nat_eq, text_eq, option_eq, ◌≡◌, refl, arith, Result, ok, err,
}
use secret_git.Exec.{Exec}
use secret_git.Library.{Library}
use secret_git.Roster.{Roster}
use secret_git.LocalState.{State, add_pack}
use secret_git.Store.{Store}
use secret_git.Git.{Git, update_ref}
use secret_git.Client.{
  Decoders, Engine, on_server, on_git, draw, load_state, check_keyfile_generation, decrypt_pack,
  load_current, import_pack, import_packs,
}
use secret_git.Exec.Keeps.{Keeps, keeps_rules, Keeps-bind, Keeps-if}
use secret_git.Client.{decrypt_with, pack_keys_for, or_next}
use secret_git.Client.Fetch.{update_refs}
use secret_git.Errors.{Error}

abbrev pub file_of : {S G : Type 0} → Engine S G → Option State
file_of e = e.file

module _ {S G A : Type 0} where
  pub on_server-Keeps : (m : Exec S A) → Keeps (file_of {S = S} {G = G}) (on_server m)
  unfolding on_server
  on_server-Keeps m = record { at = λ e. refl }

  pub on_git-Keeps : (m : Exec G A) → Keeps (file_of {S = S} {G = G}) (on_git m)
  unfolding on_git
  on_git-Keeps m = record { at = λ e. refl }

module _ {S G : Type 0} where
  pub load_state-Keeps : Keeps (file_of {S = S} {G = G}) load_state
  unfolding load_state
  load_state-Keeps = record { at = λ e. refl }

  draw-Keeps_at : (e : Engine S G) (l : List Text) → e.entropy ≡ l → file_of (draw e).1 ≡ file_of e
  unfolding draw
  draw-Keeps_at e [] h = ground arith
  draw-Keeps_at e (d ∷ ds) h = ground arith

  pub draw-Keeps : Keeps (file_of {S = S} {G = G}) draw
  draw-Keeps = record { at = λ e. draw-Keeps_at e e.entropy refl }

  pub check_keyfile_generation-Keeps :
      (r : Roster) → Keeps (file_of {S = S} {G = G}) (check_keyfile_generation r)
  unfolding check_keyfile_generation
  check_keyfile_generation-Keeps r = record { at = λ e. refl }

ruleset step_rules = (
  keeps_rules, on_server-Keeps, on_git-Keeps, load_state-Keeps, draw-Keeps,
  check_keyfile_generation-Keeps,
)

module _ {S G : Type 0} ⦃lib : Library⦄ where
  pack_keys_for-Keeps : (key : Text) → Keeps (file_of {S = S} {G = G}) (pack_keys_for key)
  unfolding pack_keys_for
  pack_keys_for-Keeps key = record { at = λ e. ground arith }

  or_next-Keeps :
      (first : Result Error Text) (rest : Exec (Engine S G) Text)
      → Keeps (file_of {S = S} {G = G}) rest
      → Keeps (file_of {S = S} {G = G}) (or_next first rest)
  unfolding or_next
  or_next-Keeps (ok out) rest k = search keeps_rules
  or_next-Keeps (err x) rest k = k

  decrypt_with-Keeps :
      (blob : Text) (ks : List Text) → Keeps (file_of {S = S} {G = G}) (decrypt_with blob ks)
  unfolding decrypt_with
  decrypt_with-Keeps blob [] = search keeps_rules
  decrypt_with-Keeps blob (k ∷ ks) =
      Keeps-bind _ _ (search (keeps_rules, pack_keys_for-Keeps))
        (λ keys. or_next-Keeps _ _ (decrypt_with-Keeps blob ks))

  pub decrypt_pack-Keeps : (blob : Text) → Keeps (file_of {S = S} {G = G}) (decrypt_pack blob)
  unfolding decrypt_pack
  decrypt_pack-Keeps blob = search (keeps_rules, or_next-Keeps, decrypt_with-Keeps)

module _ {S G : Type 0} ⦃lib : Library⦄ ⦃store : Store S⦄ ⦃git : Git G⦄ where
  pub import_pack-Keeps : (id : Text) → Keeps (file_of {S = S} {G = G}) (import_pack id)
  unfolding import_pack
  import_pack-Keeps id = search (step_rules, decrypt_pack-Keeps)

  pub import_packs-Keeps :
      (ps : List Text) (st : State) → Keeps (file_of {S = S} {G = G}) (import_packs ps st)
  unfolding import_packs
  import_packs-Keeps [] st = search keeps_rules
  import_packs-Keeps (p ∷ ps) st =
      Keeps-if _ _ _ (import_packs-Keeps ps st)
        (Keeps-bind _ _ (import_pack-Keeps p) (λ _. import_packs-Keeps ps (add_pack st p)))

module _ {S G : Type 0} ⦃git : Git G⦄ where
  pub update_refs-Keeps :
      (refs : List (Text × Text)) → Keeps (file_of {S = S} {G = G}) (update_refs refs)
  unfolding update_refs
  update_refs-Keeps [] = search keeps_rules
  update_refs-Keeps ((ref, sha) ∷ refs) =
      Keeps-bind _ _ (on_git-Keeps (update_ref ref sha)) (λ _. update_refs-Keeps refs)

module _ {S G : Type 0} ⦃lib : Library⦄ ⦃dec : Decoders⦄ ⦃store : Store S⦄ where
  pub load_current-Keeps : (r : Roster) → Keeps (file_of {S = S} {G = G}) (load_current r)
  unfolding load_current
  load_current-Keeps r = search step_rules depth 12
