-- ===== src/Client/Trust.antt =====
-- internal/helper/roster.go: which roster the client trusts.
pub mod Chain
use secret_git.Prelude.Results
use secret_git.Prelude.{
  Option, Text, true, none, some, List, [], ◌∷◌, if◌then◌else◌, ◌==◌, nat_eq, text_eq, option_eq,
  Result, ok, err, or_err, ltb,
}
use secret_git.Exec.{Exec, pure, raise, lift, ◌>>=◌, ◌>>◌}
use secret_git.Library.{Library}
use secret_git.Hex.{hex_encode, sha256_hex}
use secret_git.Roster
use secret_git.Roster.{
  Roster, Member, find_by_fingerprint, ed_pub, binding_hash, fingerprint, has_fingerprint,
  x_pub_bytes,
}
use secret_git.Keys.{Identity, recipient_from_public}
use secret_git.LocalState.{State}
use secret_git.Store.{Store}
use secret_git.Client.{
  Decoders, Engine, parse_roster, on_server, load_state, save_state, decrypt_pack,
}
use secret_git.Errors.{
  Error, no_roster, roster_equivocation, roster_rollback, roster_chain_break, author_not_trusted,
}

module _ ⦃lib : Library⦄ where
  -- memberFromIdentity
  unfoldable pub member_from_identity : Identity → Text → Member
  member_from_identity id name = record {
    name = name;
    x25519_pub = hex_encode id.pub_x;
    ed25519_pub = hex_encode id.ed_pub;
  }

  -- rosterRecipients
  unfoldable pub roster_recipients : List Member → Result Error (List Text)
  roster_recipients [] = ok []
  roster_recipients (m ∷ ms) = Results.◌>>=◌ (x_pub_bytes m) (λ x.
      Results.◌>>=◌ (recipient_from_public x)
        (λ r. Results.◌>>=◌ (roster_recipients ms) (λ rs. ok (r ∷ rs))))

  -- The signature of a roster under its author's key.
  unfoldable pub verify_author : Roster → Member → Result Error (Unit {0})
  verify_author r author = Results.◌>>=◌ (ed_pub author) (λ pub_key. Roster.verify pub_key r)

  -- verifyRosterSelfConsistent: an author outside the roster is left to the out-of-band check.
  unfoldable pub verify_roster_self_consistent : Roster → Result Error (Unit {0})
  verify_roster_self_consistent r = elim (find_by_fingerprint r.author_key_id r) [
    | none ↦ ok tt
    | some author ↦ verify_author r author
  ]

  unfoldable pub verify_trusted_author : Roster → Option Member → Result Error (Unit {0})
  verify_trusted_author r none = err author_not_trusted
  verify_trusted_author r (some author) = verify_author r author

  -- The default case of the switch: the direct, authorized successor of the pinned roster.
  unfoldable pub check_successor : State → Roster → Roster → Result Error (Unit {0})
  check_successor st trusted r =
      if r.prev_roster_hash == some st.roster_hash
      then verify_trusted_author r (find_by_fingerprint r.author_key_id trusted)
      else err roster_chain_break

-- pinRoster: the state with the new pin, which is saved.
unfoldable pub pinned : State → Roster → Text → Text → State
pinned st r plain hash = record st {
  roster_pinned = true;
  roster_version = r.version;
  roster_hash = hash;
  trusted_roster = plain;
}

module _ {S G : Type 0} where
  unfoldable pub pin_roster : State → Roster → Text → Text → Exec (Engine S G) (Unit {0})
  pin_roster st r plain hash = save_state (pinned st r plain hash)

  -- The roster that is read is the new pin.
  unfoldable pub advance : State → Roster → Text → Text → Exec (Engine S G) (Roster × Text)
  advance st r plain hash = do pin_roster st r plain hash; pure (r, hash)

module _ {S G : Type 0} ⦃lib : Library⦄ ⦃dec : Decoders⦄ where
  -- The switch of loadTrustedRoster, against a roster that is pinned.
  unfoldable pub against_pin : State → Roster → Text → Text → Exec (Engine S G) (Roster × Text)
  against_pin st r plain hash = do
    trusted ← lift (parse_roster st.trusted_roster)
    if r.version == st.roster_version
        then (if hash == st.roster_hash
            then pure (trusted, st.roster_hash)
            else raise roster_equivocation)
        else if ltb r.version st.roster_version
        then raise roster_rollback
        else (do lift (check_successor st trusted r); advance st r plain hash)

  -- The first roster is trusted on first use.
  unfoldable pub first_use : State → Roster → Text → Text → Exec (Engine S G) (Roster × Text)
  first_use st r plain hash = do lift (verify_roster_self_consistent r); advance st r plain hash

module _ {S G : Type 0} ⦃lib : Library⦄ ⦃dec : Decoders⦄ ⦃store : Store S⦄ where
  unfoldable pub load_trusted_roster : Exec (Engine S G) (Roster × Text)
  load_trusted_roster = do
    (blob, _) ← on_server store.get_roster
    sealed ← lift (or_err blob no_roster)
    plain ← decrypt_pack sealed
    r ← lift (parse_roster plain)
    st ← load_state
    if st.roster_pinned
        then against_pin st r plain (sha256_hex plain)
        else first_use st r plain (sha256_hex plain)
