-- ===== src/Client/Fetch/Pins.antt =====
-- What the steps of Fetch do to the pins of the saved state.
use secret_git.Prelude.{
  Text, ℕ, Option, List, [], ◌∷◌, arith, nat_eq, text_eq, option_eq, ◌≡◌, refl, ◌∙◌, ap, ok,
}
use secret_git.Exec.{Exec, modify, ◌>>=◌}
use secret_git.Library.{Library}
use secret_git.Manifest.{Manifest}
use secret_git.Roster.{Roster}
use secret_git.Keys.{PackKeys}
use secret_git.LocalState.{State, load, add_key, has_pack, add_pack}
use secret_git.Store.{Store}
use secret_git.Git.{Git}
use secret_git.Client.{
  Decoders, Engine, parse_roster, load_state, save_state, check_keyfile_generation,
  refresh_pack_keys, import_pack, import_packs,
}
use secret_git.Exec.Keeps.{Keeps, keeps_rules, Keeps-Ends}
use secret_git.Exec.Ends.{Ends, returns, Ends-bind, Ends-if, Ends-weaken, Ends-pure}
use secret_git.Client.{remember_key}
use secret_git.Client.Frames.{file_of, on_server-Keeps, import_pack-Keeps, update_refs-Keeps}
use secret_git.Client.Trust.{pinned}
use secret_git.Client.Trust.Chain.{Trusts, stays, anchors, advances}
use secret_git.Client.Fetch.{pin_manifest, update_refs, take_in}
use secret_git.Client.Fetch.Accepts.{manifest_pin, pins, pins_of}

add_key-pins : (st : State) (k : Text) → pins (add_key st k) ≡ pins st
unfolding add_key
add_key-pins st k = ground arith

add_pack-pins : (st : State) (id : Text) → pins (add_pack st id) ≡ pins st
unfolding add_pack
add_pack-pins st id = ground arith

module _ {S G : Type 0} where
  save-add_key-Keeps :
      (k : Text) (e : Engine S G) → pins_of (save_state (add_key (load e.file) k) e).1 ≡ pins_of e
  unfolding save_state
  save-add_key-Keeps k e = add_key-pins (load e.file) k

module _ {S G : Type 0} ⦃lib : Library⦄ ⦃store : Store S⦄ where
  remember_key-Keeps :
      (k : Text) (pk : PackKeys) → Keeps (pins_of {S = S} {G = G}) (remember_key k pk)
  unfolding remember_key load_state save_state ◌>>=◌
  remember_key-Keeps k pk = record { at = λ e. ground (arith, add_key-pins (load e.file) k) }

module _ {S G A : Type 0} where
  pins_from_file :
      (m : Exec (Engine S G) A)
      → Keeps (file_of {S = S} {G = G}) m
      → Keeps (pins_of {S = S} {G = G}) m
  pins_from_file m k = record { at = λ e. ap (λ f. pins (load f)) (k.at e) }

module _ {S G : Type 0} ⦃lib : Library⦄ ⦃store : Store S⦄ where
  set_keys-Keeps :
      (g : ℕ) (k : Text) (pk : PackKeys)
      → Keeps
          (pins_of {S = S} {G = G})
          (modify (λ e. record e { repo_key = k; kf_generation = g; pack = pk }))
  unfolding modify
  set_keys-Keeps g k pk = record { at = λ e. refl }

  pub refresh_pack_keys-Keeps : Keeps (pins_of {S = S} {G = G}) refresh_pack_keys
  unfolding refresh_pack_keys
  refresh_pack_keys-Keeps =
      search (keeps_rules, pins_from_file, on_server-Keeps, remember_key-Keeps, set_keys-Keeps)
        depth 14

module _ ⦃lib : Library⦄ ⦃dec : Decoders⦄ where
  pub Trusts-manifest_pin :
      {st st' : State} {p : Roster × Text} → Trusts st p st' → manifest_pin st' ≡ manifest_pin st
  unfolding pinned
  Trusts-manifest_pin (stays plain a b c d e) = rw e
  Trusts-manifest_pin (anchors plain a b c d e) = rw e
  Trusts-manifest_pin (advances plain trusted a b c d f g h e) = rw e

  pub Trusts-parses :
      {st st' : State} {p : Roster × Text}
      → Trusts st p st'
      → parse_roster st'.trusted_roster ≡ ok p.0
  unfolding pinned
  Trusts-parses (stays plain a b c d e) = rw e b
  Trusts-parses (anchors plain a b c d e) = rw e b
  Trusts-parses (advances plain trusted a b c d f g h e) = rw e c

module _ {S G : Type 0} ⦃lib : Library⦄ ⦃store : Store S⦄ ⦃git : Git G⦄ where
  -- Importing packs changes only the list of imported packs.
  pub import_packs-pins :
      (ps : List Text) (st : State) (e : Engine S G)
      → Ends
          (λ st' t. (pins st' ≡ pins st) × (t.file ≡ e.file))
          (λ t. t.file ≡ e.file)
          (import_packs ps st e)
  unfolding import_packs
  import_packs-pins [] st e = Ends-pure st e (refl, refl)
  import_packs-pins (p ∷ ps) st e =
      Ends-if (has_pack st p) (import_packs ps st)
        (import_pack p >>= λ _. import_packs ps (add_pack st p)) e (λ _. import_packs-pins ps st e)
        (λ _. Ends-bind (import_pack p) _ e (Keeps-Ends _ e (import_pack-Keeps p) refl) (λ _ t h.
          Ends-weaken (import_packs-pins ps (add_pack st p) t)
            (λ st' u g. (g.0 ∙ add_pack-pins st p, g.1 ∙ h)) (λ u g. g ∙ h)))

module _ {S G : Type 0} where
  pub save_pin-Ends :
      (m : Manifest) (hash : Text) (st st' : State) (file : Option State) (e : Engine S G)
      → pins st' ≡ pins st
      → Ends
          (λ _ u. pins_of u ≡ pins (pin_manifest st m.version hash))
          (λ u. u.file ≡ file)
          (save_state (pin_manifest st' m.version hash) e)
  unfolding save_state pin_manifest
  save_pin-Ends m hash st st' file e h = returns (ap (λ s. pin_manifest s m.version hash) h)

module _ {S G : Type 0} ⦃lib : Library⦄ ⦃store : Store S⦄ ⦃git : Git G⦄ where
  -- The state that Fetch saves has the new pin, and the roster that was trusted.
  pub take_in-Ends :
      (m : Manifest) (hash : Text) (e t : Engine S G)
      → t.file ≡ e.file
      → Ends
          (λ _ u. pins_of u ≡ pins (pin_manifest (load e.file) m.version hash))
          (λ u. u.file ≡ e.file)
          (take_in m hash (load e.file) t)
  unfolding take_in
  take_in-Ends m hash e t same =
      Ends-bind {Q = λ st u. (pins st ≡ pins (load e.file)) × (u.file ≡ e.file)}
        (import_packs m.packs (load e.file)) _ t
        (Ends-weaken (import_packs-pins m.packs (load e.file) t) (λ st u h. (h.0, h.1 ∙ same))
          (λ u h. h ∙ same))
        (λ st u h.
          Ends-bind (update_refs m.refs) _ u (Keeps-Ends _ u (update_refs-Keeps m.refs) h.1)
            (λ _ v k. save_pin-Ends m hash (load e.file) st e.file v h.0))

  pub check_generation_first :
      (trusted : Roster) (e : Engine S G) → (check_keyfile_generation trusted e).1 ≡ e
  unfolding check_keyfile_generation
  check_generation_first trusted e = refl
