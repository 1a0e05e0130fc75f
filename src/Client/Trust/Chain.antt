-- ===== src/Client/Trust/Chain.antt =====
-- loadTrustedRoster of internal/helper/roster.go against an arbitrary server.
use secret_git.Prelude.Results
use secret_git.Prelude.{
  Text, ℕ, true, false, Option, none, some, ◌==◌, nat_eq, text_eq, option_eq, ◌≡◌, refl, ◌<◌, sym,
  Bool-cases, inl, inr, ==_sound, ap, subst, arith, ok, ltb,
}
use secret_git.Exec.{Exec, ◌>>=◌}
use secret_git.Library.{Library}
use secret_git.Hex.{sha256_hex}
use secret_git.Roster
use secret_git.Roster.{
  Roster, Member, find_by_fingerprint, ed_pub, binding_hash, fingerprint, has_fingerprint,
  x_pub_bytes,
}
use secret_git.LocalState.{State, load}
use secret_git.Store.{Store}
use secret_git.Client.{Decoders, Engine, parse_roster, load_state, save_state}
use secret_git.Exec.Keeps.{Keeps-Ends}
use secret_git.Exec.Ends.{Ends, returns, Ends-bind, Ends-lift, Ends-if, Ends-pure, Ends-raise}
use secret_git.Client.Frames.{on_server-Keeps, decrypt_pack-Keeps}
use secret_git.Client.Trust.{
  verify_author, verify_roster_self_consistent, check_successor, verify_trusted_author, pinned,
  pin_roster, advance, against_pin, first_use, load_trusted_roster,
}

module _ ⦃lib : Library⦄ where
  -- The author of r is a member of the roster trusted, and r verifies under that member's key.
  pub record IsAuthored (r trusted : Roster) : Type 0 where
    pub author : Member
    pub key : Text
    pub found : find_by_fingerprint r.author_key_id trusted ≡ some author
    pub decodes : ed_pub author ≡ ok key
    pub verifies : Roster.verify key r ≡ ok tt

module _ ⦃lib : Library⦄ ⦃dec : Decoders⦄ where
  -- How the roster that is returned, with its hash, and the saved state follow from the state
  -- before: the pin stays, or it is set for the first time, or it moves to a successor that a
  -- member of the pinned roster has signed.
  pub data Trusts (st : State) (p : Roster × Text) (st' : State) : Type 0 where
    stays :
        (plain : Text)
        → st.roster_pinned ≡ true
        → parse_roster st.trusted_roster ≡ ok p.0
        → sha256_hex plain ≡ st.roster_hash
        → p.1 ≡ st.roster_hash
        → st' ≡ st
        → Trusts st p st'
    anchors :
        (plain : Text)
        → st.roster_pinned ≡ false
        → parse_roster plain ≡ ok p.0
        → verify_roster_self_consistent p.0 ≡ ok tt
        → p.1 ≡ sha256_hex plain
        → st' ≡ pinned st p.0 plain (sha256_hex plain)
        → Trusts st p st'
    advances :
        (plain : Text) (trusted : Roster)
        → st.roster_pinned ≡ true
        → parse_roster st.trusted_roster ≡ ok trusted
        → parse_roster plain ≡ ok p.0
        → st.roster_version < p.0.version
        → p.0.prev_roster_hash ≡ some st.roster_hash
        → IsAuthored p.0 trusted
        → p.1 ≡ sha256_hex plain
        → st' ≡ pinned st p.0 plain (sha256_hex plain)
        → Trusts st p st'

module _ ⦃lib : Library⦄ where
  IsAuthored-by :
      (r : Roster) (trusted : Roster) (author : Member)
      → find_by_fingerprint r.author_key_id trusted ≡ some author
      → verify_author r author ≡ ok tt
      → IsAuthored r trusted
  unfolding verify_author
  IsAuthored-by r trusted author found v =
      let (key, decodes, verifies) = Results.>>=-eq-ok (ed_pub author) _ v in
      record { author = author; key = key; found = found; decodes = decodes; verifies = verifies }

  trusted_author :
      (r trusted : Roster) (found : Option Member)
      → find_by_fingerprint r.author_key_id trusted ≡ found
      → verify_trusted_author r found ≡ ok tt
      → IsAuthored r trusted
  unfolding verify_trusted_author
  trusted_author r trusted none e v = cc
  trusted_author r trusted (some author) e v = IsAuthored-by r trusted author e v

  -- The default case of the switch passes the successors that a pinned member authored.
  check_successor-IsAuthored :
      (st : State) (trusted r : Roster)
      → check_successor st trusted r ≡ ok tt
      → (r.prev_roster_hash ≡ some st.roster_hash) × IsAuthored r trusted
  unfolding check_successor
  check_successor-IsAuthored st trusted r h =
      elim (Bool-cases (r.prev_roster_hash == some st.roster_hash)) [
        | inl t ↦ (==_sound _ _ t, trusted_author r trusted _ refl (rw t at h))
        | inr f ↦ absurd (cc (rw f at h))
      ]

later : {m n : ℕ} → (m == n) ≡ false → ltb m n ≡ false → n < m
later ne not_less = ground arith

module _ {S G A : Type 0} {Q : A → Engine S G → Type 0} {X : Engine S G → Type 0} where
  -- The state that is loaded is the one in the file.
  pub Ends-load :
      (f : State → Exec (Engine S G) A) (e t : Engine S G)
      → t.file ≡ e.file
      → Ends Q X (f (load e.file) t)
      → Ends Q X ((load_state >>= f) t)
  unfolding load_state ◌>>=◌
  Ends-load f e t same h = subst (λ x. Ends Q X (f (load x) t)) (sym same) h

module _ {S G : Type 0} ⦃lib : Library⦄ ⦃dec : Decoders⦄ where
  advance-Ends :
      (st st' : State) (r : Roster) (plain hash : Text) (e e' : Engine S G)
      → Trusts st (r, hash) (pinned st' r plain hash)
      → Ends (λ p t. Trusts st p (load t.file)) (λ t. t.file ≡ e.file) (advance st' r plain hash e')
  unfolding advance pin_roster save_state ◌>>=◌
  advance-Ends st st' r plain hash e e' h = returns h

  first_use-Trusts :
      (e e' : Engine S G) (r : Roster) (plain : Text)
      → e'.file ≡ e.file
      → (load e.file).roster_pinned ≡ false
      → parse_roster plain ≡ ok r
      → Ends
          (λ p t. Trusts (load e.file) p (load t.file))
          (λ t. t.file ≡ e.file)
          (first_use (load e.file) r plain (sha256_hex plain) e')
  unfolding first_use
  first_use-Trusts e e' r plain same unpinned parses = Ends-lift _ _ e' same (λ _ consistent.
      advance-Ends _ _ r plain _ e e' (anchors plain unpinned parses consistent refl refl))

  against_pin-Trusts :
      (e e' : Engine S G) (r : Roster) (plain : Text)
      → e'.file ≡ e.file
      → (load e.file).roster_pinned ≡ true
      → parse_roster plain ≡ ok r
      → Ends
          (λ p t. Trusts (load e.file) p (load t.file))
          (λ t. t.file ≡ e.file)
          (against_pin (load e.file) r plain (sha256_hex plain) e')
  unfolding against_pin
  against_pin-Trusts e e' r plain same is_pinned parses =
      Ends-lift _ _ e' same (λ trusted parses_pin.
        Ends-if _ _ _ e'
          (λ _.
            Ends-if _ _ _ e'
              (λ hash_eq.
                Ends-pure _ e'
                  (stays plain is_pinned parses_pin (==_sound _ _ hash_eq) refl (ap load same)))
              (λ _. Ends-raise _ e' same))
          (λ ne.
            Ends-if _ _ _ e' (λ _. Ends-raise _ e' same)
              (λ not_less. Ends-lift _ _ e' same (λ _ passes.
                let (chains, authored) =
                  check_successor-IsAuthored (load e.file) trusted r passes in
                advance-Ends _ _ r plain _ e e' (
                  advances plain trusted is_pinned parses_pin parses (later ne not_less) chains
                    authored refl refl)))))

module _ {S G : Type 0} ⦃lib : Library⦄ ⦃dec : Decoders⦄ ⦃store : Store S⦄ where
  -- Whatever the server returns: where the client obtains a trusted roster, the roster and the
  -- saved pin stay, are anchored on first use, or advance to a successor that names the pinned
  -- hash and is signed by a member of the pinned roster. Where it fails, the state file is
  -- unchanged.
  pub load_trusted_roster-Trusts :
      (e : Engine S G)
      → Ends
          (λ p t. Trusts (load e.file) p (load t.file))
          (λ t. t.file ≡ e.file)
          (load_trusted_roster e)
  unfolding load_trusted_roster
  load_trusted_roster-Trusts e =
      Ends-bind _ _ e (Keeps-Ends _ e (on_server-Keeps store.get_roster) refl) (λ got t₁ h₁.
        Ends-lift _ _ t₁ h₁ (λ sealed _.
          Ends-bind _ _ t₁ (Keeps-Ends _ t₁ (decrypt_pack-Keeps sealed) h₁) (λ plain t₂ h₂.
            Ends-lift _ _ t₂ h₂ (λ r parses. Ends-load _ e t₂ h₂ (
              Ends-if _ _ _ t₂ (λ is_pinned. against_pin-Trusts e t₂ r plain h₂ is_pinned parses)
                (λ unpinned. first_use-Trusts e t₂ r plain h₂ unpinned parses))))))
