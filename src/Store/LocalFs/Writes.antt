-- ===== src/Store/LocalFs/Writes.antt =====
-- writeAtomic of localfs.go: the file at a path is replaced whole or not at all, and no other file
-- of the store is touched.
use secret_git.Prelude.{
  Text, ◌≡◌, ◌≢◌, refl, sym, ◌∙◌, Option, none, some, List, [], ◌∷◌, nat_eq, text_eq, Result, ok,
  err, All, inl, inr, Bool-cases,
}
use secret_git.Errors.{Error}
use secret_git.Exec.Ends.{Ends, returns, fails}
use secret_git.Store.Disk.{FileSystem, DiskLaws, IsPlain}
use secret_git.Store.LocalFs.{close_and_rename, fill, removing, with_temp, write_atomic}

module _ {D : Type 0} (fs : FileSystem D) where
  -- The same content at a path.
  abbrev pub Same : Text → D → D → Type 0
  Same q d d' = fs.read_file q d' ≡ fs.read_file q d

  -- A path below the root, of plain components.
  abbrev pub below : Text → Text → List Text → Text
  below root x xs = fs.join (root ∷ x ∷ xs)

  -- The same content at every plain path below the root, but for one.
  pub record SameBut (root : Text) (ys : List Text) (d d' : D) : Type 0 where
    pub same :
        (x : Text) (xs : List Text)
        → All IsPlain (x ∷ xs)
        → x ∷ xs ≢ ys
        → Same (below root x xs) d d'

  -- The same content at every plain path below the root.
  pub record SameAll (root : Text) (d d' : D) : Type 0 where
    pub same_all : (x : Text) (xs : List Text) → All IsPlain (x ∷ xs) → Same (below root x xs) d d'

module _ {D : Type 0} (fs : FileSystem D) (laws : DiskLaws D fs) where
  close_and_rename-Ends :
      (t path content : Text) (d d0 : D)
      → t ≢ path
      → fs.read_file t d ≡ ok content
      → ((q : Text) → q ≢ t → Same fs q d0 d)
      → Ends
          (λ _ d'.
            (fs.read_file path d' ≡ ok content) × ((q : Text) → q ≢ t → q ≢ path → Same fs q d0 d'))
          (λ d'. (q : Text) → q ≢ t → Same fs q d0 d')
          (close_and_rename ⦃fs = fs⦄ t path d)
  unfolding close_and_rename
  close_and_rename-Ends t path content d d0 apart written before =
      let d1 = (fs.close t d).1 in
      elim (Bool-cases (fs.close t d).0) [
        | inr e ↦ rw e (fails (λ q n. laws.close_same t q d ∙ before q n))
        | inl e ↦ elim (Bool-cases (fs.rename t path d1).0) [
          | inr e' ↦
              rw (e, e')
                (fails
                  (λ q n. laws.rename_failed t path q d1 e' ∙ laws.close_same t q d ∙ before q n))
          | inl e' ↦
              rw (e, e')
                (returns (
                  laws.rename_moves t path d1 apart e' ∙ laws.close_same t t d ∙ written,
                  λ q n n'. laws.rename_same t path q d1 n n' ∙ laws.close_same t q d ∙ before q n,
                ))
        ]
      ]

  fill-Ends :
      (t path content : Text) (d : D)
      → t ≢ path
      → fs.read_file t d ≡ ok []
      → Ends
          (λ _ d'.
            (fs.read_file path d' ≡ ok content) × ((q : Text) → q ≢ t → q ≢ path → Same fs q d d'))
          (λ d'. (q : Text) → q ≢ t → Same fs q d d')
          (fill ⦃fs = fs⦄ t path content d)
  unfolding fill
  fill-Ends t path content d apart empty =
      let d1 = (fs.write t content d).1 in
      elim (Bool-cases (fs.write t content d).0) [
        | inr e ↦ rw e (fails (λ q n. laws.close_same t q d1 ∙ laws.write_same t content q d n))
        | inl e ↦ rw e (
            close_and_rename-Ends t path content d1 d apart (laws.write_all t content d empty e)
              (λ q n. laws.write_same t content q d n))
      ]

  -- What the deferred removal of another file leaves.
  removing-Ends :
      {Q : Unit {0} → D → Type 0} {X : D → Type 0} {Q' : Unit {0} → D → Type 0} {X' : D → Type 0}
      (t : Text) (p : Result Error (Unit {0}) × D)
      → Ends Q X p
      → ((d : D) → Q tt d → Q' tt (fs.remove t d).1)
      → ((d : D) → X d → X' (fs.remove t d).1)
      → Ends Q' X' (removing ⦃fs = fs⦄ t p)
  removing-Ends t (ok tt, d) (returns q) f g = returns (f d q)
  removing-Ends t (err e, d) (fails x) f g = fails (g d x)

  with_temp-Ends :
      (root y : Text) (ys : List Text) (content folder : Text) (d : D) (o : Option Text)
      → All IsPlain (y ∷ ys)
      → (fs.create_temp folder d).0 ≡ o
      → Ends
          (λ _ d'.
            (fs.read_file (below fs root y ys) d' ≡ ok content) × SameBut fs root (y ∷ ys) d d')
          (λ d'. SameAll fs root d d')
          (with_temp ⦃fs = fs⦄ (below fs root y ys) content (o, (fs.create_temp folder d).1))
  with_temp-Ends root y ys content folder d none plain e =
      fails (record { same_all = λ x xs p. laws.create_temp_none folder (below fs root x xs) d e })
  with_temp-Ends root y ys content folder d (some t) plain e =
      let path = below fs root y ys in
      let d1 = (fs.create_temp folder d).1 in
      let apart =
        λ (x : Text) (xs : List Text) (p : All IsPlain (x ∷ xs)) (h : below fs root x xs ≡ t).
          laws.create_temp_apart folder t root x xs d e p (sym h) in
      removing-Ends t (fill ⦃fs = fs⦄ t path content d1)
        (fill-Ends t path content d1 (laws.create_temp_apart folder t root y ys d e plain)
          (laws.create_temp_empty folder t d e))
        (λ d2 q. (
          laws.remove_same t path d2 (apart y ys plain) ∙ q.0,
          record {
            same = λ x xs p n.
                laws.remove_same t (below fs root x xs) d2 (apart x xs p)
                ∙ q.1 (below fs root x xs) (apart x xs p)
                    (λ h. n (laws.join_injective root (x ∷ xs) (y ∷ ys) p plain h))
                ∙ laws.create_temp_same folder t (below fs root x xs) d e (apart x xs p);
          },
        ))
        (λ d2 q. record {
          same_all = λ x xs p.
              laws.remove_same t (below fs root x xs) d2 (apart x xs p)
              ∙ q (below fs root x xs) (apart x xs p)
              ∙ laws.create_temp_same folder t (below fs root x xs) d e (apart x xs p);
        })

  -- Where writeAtomic returns without an error, the file has the new content, and where it fails
  -- at any of its calls, the file has the content that it had; no other plain path changes.
  pub write_atomic-Ends :
      (root y : Text) (ys : List Text) (content : Text) (d : D)
      → All IsPlain (y ∷ ys)
      → Ends
          (λ _ d'.
            (fs.read_file (below fs root y ys) d' ≡ ok content) × SameBut fs root (y ∷ ys) d d')
          (λ d'. SameAll fs root d d')
          (write_atomic ⦃fs = fs⦄ (below fs root y ys) content d)
  unfolding write_atomic
  write_atomic-Ends root y ys content d plain =
      with_temp-Ends root y ys content (fs.dir (below fs root y ys)) d _ plain refl
