-- ===== src/Client/Fetch/Safety.antt =====
-- Fetch of internal/helper/engine.go against an arbitrary server.
use secret_git.Prelude.{
  Text, Bool, true, false, if◌then◌else◌, ◌==◌, arith, nat_eq, text_eq, option_eq, ◌≡◌, refl, ◌≤◌,
  ◌∙◌, inl, inr, ap, subst, Result, ok,
}
use secret_git.Exec.{pure}
use secret_git.Library.{Library}
use secret_git.Hex.{sha256_hex}
use secret_git.Manifest.{Manifest}
use secret_git.Roster.{Roster}
use secret_git.LocalState.{State, load}
use secret_git.Store.{Store}
use secret_git.Git.{Git}
use secret_git.Client.{
  Decoders, Engine, parse_manifest, parse_roster, on_server, check_keyfile_generation,
  refresh_pack_keys, blob_bytes,
}
use secret_git.Exec.Keeps.{Keeps-Ends, Ends-keep}
use secret_git.Exec.Ends.{
  Ends, returns, fails, Ends-bind, Ends-lift, Ends-gets, Ends-if, Ends-weaken, Ends-pure,
}
use secret_git.Client.Frames.{on_server-Keeps, check_keyfile_generation-Keeps}
use secret_git.Client.Trust.{load_trusted_roster}
use secret_git.Client.Trust.Chain.{Ends-load, load_trusted_roster-Trusts}
use secret_git.Client.Fetch.{
  check_freshness, pin_manifest, take_in, fetch_manifest, fetch_trusting, fetch,
}
use secret_git.Errors.{Error}
use secret_git.Client.Fetch.Accepts.{
  manifest_pin, IsSigned, verify_manifest_with_roster-IsSigned, Follows, check_freshness-Follows,
  Accepts, unchanged, accepted,
}
use secret_git.Client.Fetch.Pins.{
  refresh_pack_keys-Keeps, Trusts-manifest_pin, Trusts-parses, take_in-Ends,
}

-- What Fetch guarantees when it returns: of the state before and the state that is saved.
module _ ⦃lib : Library⦄ ⦃dec : Decoders⦄ where
  pub record Fetched (st st' : State) : Type 0 where
    pub trusted : Roster
    pub roster_saved : parse_roster st'.trusted_roster ≡ ok trusted
    pub accepts : Accepts trusted st st'

  Accepts-le :
      {trusted : Roster} {st st' : State} → Accepts trusted st st' → st.version ≤ st'.version
  Accepts-le (unchanged h) = omega (arith, ap (λ p. p.0) h)
  Accepts-le (accepted plain m a b (inl z) h) = omega (arith, ap (λ p. p.0) h)
  Accepts-le (accepted plain m a b (inr l) h) = omega (arith, l.0, ap (λ p. p.0) h)

  Fetched-as_it_was :
      (st st' : State) (trusted : Roster)
      → parse_roster st'.trusted_roster ≡ ok trusted
      → manifest_pin st' ≡ manifest_pin st
      → Fetched st st'
  Fetched-as_it_was st st' trusted p h = record {
    trusted = trusted;
    roster_saved = p;
    accepts = unchanged h;
  }

module _ {S G : Type 0} ⦃lib : Library⦄ ⦃dec : Decoders⦄ ⦃store : Store S⦄ ⦃git : Git G⦄ where
  le_of_Ends :
      {st : State} (p : Result Error (Unit {0}) × Engine S G)
      → Ends (λ _ t. Fetched st (load t.file)) (λ t. manifest_pin (load t.file) ≡ manifest_pin st) p
      → st.version ≤ (load p.1.file).version
  le_of_Ends p (returns f) = Accepts-le f.accepts
  le_of_Ends p (fails h) = omega (arith, ap (λ q. q.0) h)

  fresh-Fetched :
      (st : State) (trusted : Roster) (plain : Text) (m : Manifest) (fresh : Bool)
      (e t : Engine S G)
      → t.file ≡ e.file
      → manifest_pin (load e.file) ≡ manifest_pin st
      → parse_roster (load e.file).trusted_roster ≡ ok trusted
      → parse_manifest plain ≡ ok m
      → IsSigned m trusted
      → check_freshness (load e.file) m (sha256_hex plain) ≡ ok fresh
      → Ends
          (λ _ u. Fetched st (load u.file))
          (λ u. manifest_pin (load u.file) ≡ manifest_pin st)
          ((if fresh then take_in m (sha256_hex plain) (load e.file) else pure tt) t)
  unfolding pin_manifest
  fresh-Fetched st trusted plain m true e t same pin parsed parses signed h =
      Ends-weaken (take_in-Ends m (sha256_hex plain) e t same)
        (λ _ u g. record {
          trusted = trusted;
          roster_saved = rw (ap (λ s. s.trusted_roster) g) parsed;
          accepts =
              accepted plain m parses signed
                (subst (λ p. Follows p m) pin (check_freshness-Follows (load e.file) m _ h))
                (ap manifest_pin g);
        })
        (λ u g. ap (λ f. manifest_pin (load f)) g ∙ pin)
  fresh-Fetched st trusted plain m false e t same pin parsed parses signed h = Ends-pure tt t (
      Fetched-as_it_was st (load t.file) trusted (rw same parsed)
        (ap (λ f. manifest_pin (load f)) same ∙ pin))

  fetch_manifest-Fetched :
      (st : State) (trusted : Roster) (blob : Text) (e t : Engine S G)
      → t.file ≡ e.file
      → manifest_pin (load e.file) ≡ manifest_pin st
      → parse_roster (load e.file).trusted_roster ≡ ok trusted
      → Ends
          (λ _ u. Fetched st (load u.file))
          (λ u. manifest_pin (load u.file) ≡ manifest_pin st)
          (fetch_manifest trusted blob t)
  unfolding fetch_manifest
  fetch_manifest-Fetched st trusted blob e t same pin parsed =
      let still : manifest_pin (load t.file) ≡ manifest_pin st =
        ap (λ f. manifest_pin (load f)) same ∙ pin in
      Ends-gets _ _ t (
        Ends-lift _ _ t still (λ plain _. Ends-lift _ _ t still (λ m parses.
          Ends-lift _ _ t still (λ _ passes. Ends-load _ e t same (
            Ends-lift _ _ t still (λ fresh h.
              fresh-Fetched st trusted plain m fresh e t same pin parsed parses
                (verify_manifest_with_roster-IsSigned m trusted passes) h))))))

  after_roster-Fetched :
      (st : State) (trusted : Roster) (e : Engine S G)
      → manifest_pin (load e.file) ≡ manifest_pin st
      → parse_roster (load e.file).trusted_roster ≡ ok trusted
      → Ends
          (λ _ u. Fetched st (load u.file))
          (λ u. manifest_pin (load u.file) ≡ manifest_pin st)
          (fetch_trusting trusted e)
  unfolding fetch_trusting
  after_roster-Fetched st trusted e pin parsed =
      let still : (t : Engine S G)
          → t.file ≡ e.file
          → manifest_pin (load t.file) ≡ manifest_pin st =
        λ t h. ap (λ f. manifest_pin (load f)) h ∙ pin in
      Ends-keep (check_keyfile_generation trusted) _ e (check_keyfile_generation-Keeps trusted) refl
        still
        (λ _ t h.
          Ends-keep (on_server store.get_manifest) _ t (on_server-Keeps store.get_manifest) h still
            (λ (blob, version) u k.
              Ends-if (version == 0) _ _ u
                (λ _.
                  Ends-pure tt u
                    (Fetched-as_it_was st (load u.file) trusted (rw k parsed) (still u k)))
                (λ _. fetch_manifest-Fetched st trusted (blob_bytes blob) e u k pin parsed)))

  -- Whatever the server returns: where Fetch returns without an error, the saved state holds a
  -- roster, and the manifest pin is either unchanged or that of a manifest which is signed by a
  -- member of that roster, names its binding hash, and follows the old pin (the first manifest
  -- seen, or a later version that names the pinned manifest as its predecessor). Where Fetch
  -- fails, the manifest pin is unchanged.
  pub fetch-Fetched :
      (e : Engine S G)
      → Ends
          (λ _ t. Fetched (load e.file) (load t.file))
          (λ t. manifest_pin (load t.file) ≡ manifest_pin (load e.file))
          (fetch e)
  unfolding fetch
  fetch-Fetched e =
      Ends-bind refresh_pack_keys _ e
        (Ends-weaken (Keeps-Ends _ e refresh_pack_keys-Keeps refl) (λ _ t h. ap manifest_pin h)
          (λ t h. ap manifest_pin h))
        (λ _ t h.
          Ends-bind load_trusted_roster _ t
            (Ends-weaken (load_trusted_roster-Trusts t) (λ p u k. k)
              (λ u k. ap (λ f. manifest_pin (load f)) k ∙ h))
            (λ p u k.
              after_roster-Fetched (load e.file) p.0 u (Trusts-manifest_pin k ∙ h)
                (Trusts-parses k)))

  -- The version that the client has pinned never falls, whether Fetch returns or fails, whatever
  -- the server returns.
  pub version-le-fetch : (e : Engine S G) → (load e.file).version ≤ (load (fetch e).1.file).version
  version-le-fetch e = le_of_Ends (fetch e) (fetch-Fetched e)
