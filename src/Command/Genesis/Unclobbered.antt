-- ===== src/Command/Genesis/Unclobbered.antt =====
-- publishGenesis against a server that keeps the promises of the store's interface.
use secret_git.Prelude.{
  Text, ℕ, ◌≡◌, refl, sym, ap, ==_sound, Bool-cases, inl, inr, Bool, true, false, ◌&&◌, Option,
  none, some, ◌==◌, nat_eq, text_eq, Result, ok, err, arith,
}
use secret_git.Library.{Library}
use secret_git.Errors.{Error}
use secret_git.Exec.{◌>>=◌}
use secret_git.Store.Ideal.{Contents, contents_store}
use secret_git.Command.Genesis.{publish_genesis}

module _ ⦃lib : Library⦄ where
  -- What a server holds after publish-genesis, by what it returned.
  pub record IsKept (local before after : Contents) (result : Result Error Bool) : Type 0 where
    pub keyfile_kept : (k : Text) → before.keyfile ≡ some k → after.keyfile ≡ some k
    pub roster_kept : (b : Text) → before.roster.0 ≡ some b → after.roster ≡ before.roster
    pub manifest_kept : after.manifest ≡ before.manifest
    pub blobs_kept : after.blobs ≡ before.blobs
    pub keyfile_published : (b : Bool) → result ≡ ok b → after.keyfile ≡ local.keyfile
    pub roster_published : (b : Bool) → result ≡ ok b → after.roster ≡ (local.roster.0, 0)

  -- A failure that changed nothing.
  refused : (l r : Contents) (e : Error) → IsKept l r r (err e)
  refused l r e = record {
    keyfile_kept = λ k h. h;
    roster_kept = λ b h. refl;
    manifest_kept = refl;
    blobs_kept = refl;
    keyfile_published = λ b h. cc;
    roster_published = λ b h. cc;
  }

  abbrev contents :
      (Text → Option Text) → Option Text × ℕ → ℕ → Option Text → Option Text → Contents
  contents blobs manifest version roster keyfile = record {
    blobs = blobs;
    manifest = manifest;
    roster = (roster, version);
    keyfile = keyfile;
  }

  abbrev published : Contents → Contents → Result Error Bool × (Contents × Contents)
  published l r = publish_genesis contents_store contents_store (l, r)

  -- The server holds the local keyfile and roster, and what it held before.
  landed :
      (lb rb : Text → Option Text) (lm rm : Option Text × ℕ) (lv rv av : ℕ)
      (rr rk ar ak : Option Text) (b k : Text) (x : Bool)
      → ak ≡ some k
      → Path (Option Text × ℕ) (ar, av) (some b, 0)
      → ((k' : Text) → rk ≡ some k' → ak ≡ some k')
      → ((b' : Text) → rr ≡ some b' → Path (Option Text × ℕ) (ar, av) (rr, rv))
      → IsKept
          (contents lb lm lv (some b) (some k))
          (contents rb rm rv rr rk)
          (contents rb rm av ar ak)
          (ok x)
  landed lb rb lm rm lv rv av rr rk ar ak b k x e e' f g = record {
    keyfile_kept = f;
    roster_kept = g;
    manifest_kept = refl;
    blobs_kept = refl;
    keyfile_published = λ y h. e;
    roster_published = λ y h. e';
  }

  -- The server holds the local keyfile, and its roster was refused.
  half_landed :
      (lb rb : Text → Option Text) (lm rm : Option Text × ℕ) (lv rv : ℕ) (rr rk : Option Text)
      (b k : Text) (e : Error)
      → ((k' : Text) → rk ≡ some k' → k' ≡ k)
      → IsKept
          (contents lb lm lv (some b) (some k))
          (contents rb rm rv rr rk)
          (contents rb rm rv rr (some k))
          (err e)
  half_landed lb rb lm rm lv rv rr rk b k e f = record {
    keyfile_kept = λ k' h. ap some (sym (f k' h));
    roster_kept = λ b' h. refl;
    manifest_kept = refl;
    blobs_kept = refl;
    keyfile_published = λ y h. cc;
    roster_published = λ y h. cc;
  }

  both_true : (x y : Bool) → (x && y) ≡ true → (x ≡ true) × (y ≡ true)
  both_true x y h = ground arith

  same_pointer :
      (b b' : Text) (rv : ℕ)
      → (rv == 0 && b' == b) ≡ true
      → Path (Option Text × ℕ) (some b', rv) (some b, 0)
  same_pointer b b' rv z =
      let (h, t) = both_true (rv == 0) (b' == b) z in cc (==_sound rv 0 h, ==_sound b' b t)

  kept :
      (lb rb : Text → Option Text) (lm rm : Option Text × ℕ) (lv rv : ℕ) (lr rr lk rk : Option Text)
      → let l = contents lb lm lv lr lk in
        let r = contents rb rm rv rr rk in IsKept l r (published l r).1.1 (published l r).0
  unfolding publish_genesis ◌>>=◌ contents_store
  kept lb rb lm rm lv rv lr rr none rk = refused _ _ _
  kept lb rb lm rm lv rv none rr (some k) rk = refused _ _ _
  kept lb rb lm rm lv rv (some b) none (some k) none = elim (Bool-cases (rv == 0)) [
    | inl z ↦ rw z (
        landed lb rb lm rm lv rv 0 none none (some b) (some k) b k true refl refl (λ k' h. cc)
          (λ b' h. cc))
    | inr z ↦ rw z (half_landed lb rb lm rm lv rv none none b k _ (λ k' h. cc))
  ]
  kept lb rb lm rm lv rv (some b) (some b') (some k) none = elim (Bool-cases (rv == 0 && b' == b)) [
    | inl z ↦ rw z (
        landed lb rb lm rm lv rv rv (some b') none (some b') (some k) b k true refl
          (same_pointer b b' rv z) (λ k' h. cc) (λ b'' h. refl))
    | inr z ↦ rw z (half_landed lb rb lm rm lv rv (some b') none b k _ (λ k' h. cc))
  ]
  kept lb rb lm rm lv rv (some b) none (some k) (some k') = elim (Bool-cases (k' == k)) [
    | inr n ↦ rw n (refused _ _ _)
    | inl t ↦ elim (Bool-cases (rv == 0)) [
      | inl z ↦
          rw (t, z)
            (landed lb rb lm rm lv rv 0 none (some k') (some b) (some k') b k true
              (ap some (==_sound k' k t)) refl (λ k'' h. h) (λ b' h. cc))
      | inr z ↦ rw (t, z) (refused _ _ _)
    ]
  ]
  kept lb rb lm rm lv rv (some b) (some b') (some k) (some k') = elim (Bool-cases (k' == k)) [
    | inr n ↦ rw n (refused _ _ _)
    | inl t ↦ elim (Bool-cases (rv == 0 && b' == b)) [
      | inl z ↦
          rw (t, z)
            (landed lb rb lm rm lv rv rv (some b') (some k') (some b') (some k') b k false
              (ap some (==_sound k' k t)) (same_pointer b b' rv z) (λ k'' h. h) (λ b'' h. refl))
      | inr z ↦ rw (t, z) (refused _ _ _)
    ]
  ]

  -- Whatever publish-genesis returns, a keyfile or a roster that the server had stays, and its
  -- manifest and blobs stay; where it returns without an error the server has the local keyfile,
  -- and the local roster at version 0.
  pub publish_genesis-IsKept :
      (l r : Contents)
      → IsKept l r
          (publish_genesis contents_store contents_store (l, r)).1.1
          (publish_genesis contents_store contents_store (l, r)).0
  publish_genesis-IsKept l r =
      kept l.blobs r.blobs l.manifest r.manifest l.roster.1 r.roster.1 l.roster.0 r.roster.0
        l.keyfile r.keyfile
