-- ===== src/Store/LocalFs/Refinement.antt =====
-- The operations of localfs.go beside what the interface promises of them: the relation, and the
-- operations on blobs and on the keyfile.
use secret_git.Prelude.{
  Text, ℕ, ◌<◌, ◌^◌, ◌≡◌, ◌⊎◌, refl, subst, Bool, true, false, ◌||◌, none, some, [], nat_eq,
  text_eq, ◌==◌, Result, ok, err, inl, inr, Option-cases, Bool-cases, arith,
}
use secret_git.Library.{Library}
use secret_git.Errors.{Error, store_failed}
use secret_git.Exec.Ends.{Ends, returns, fails}
use secret_git.Store.Disk.{FileSystem, DiskLaws, io_error, IsPlain, is_plain, has_separator}
use secret_git.Store.Ideal.{Contents, Op, Answer, answered, promised, done}
use secret_git.Store.LocalFs.{write_atomic, fill, close_and_rename}
use secret_git.Store.LocalFs.Contents.{Holds}

-- What a call that failed on the way may have changed: a pointer's blob is replaced before its
-- version is.
pub data Broken : Op → Contents → Contents → Type 0 where
  untouched : {op : Op} {c : Contents} → Broken op c c
  manifest_blob_only :
      {expected new : ℕ} {blob : Text} {c : Contents}
      → c.manifest.1 ≡ expected
      → Broken
          (Op.cas_manifest expected blob new)
          c
          (record c { manifest = (some blob, c.manifest.1) })
  roster_blob_only :
      {expected new : ℕ} {blob : Text} {c : Contents}
      → c.roster.1 ≡ expected
      → Broken (Op.cas_roster expected blob new) c (record c { roster = (some blob, c.roster.1) })

-- A call of the file system that writes failed.
pub data Fault {D : Type 0} (fs : FileSystem D) : Type 0 where
  temp_failed : (folder : Text) (d : D) → (fs.create_temp folder d).0 ≡ none → Fault fs
  write_failed : (t content : Text) (d : D) → (fs.write t content d).0 ≡ false → Fault fs
  close_failed : (t : Text) (d : D) → (fs.close t d).0 ≡ false → Fault fs
  rename_failed : (t path : Text) (d : D) → (fs.rename t path d).0 ≡ false → Fault fs
  remove_failed : (path : Text) (d : D) → (fs.remove path d).0 ≡ err io_error → Fault fs
  open_failed : (path : Text) (d : D) → (fs.open_file path d).0 ≡ false → Fault fs
  lock_failed : (path : Text) (d : D) → (fs.flock path d).0 ≡ false → Fault fs

-- The operations that write.
abbrev pub writes : Op → Bool
writes (Op.get_blob id) = false
writes (Op.has_blob id) = false
writes Op.get_manifest = false
writes Op.get_roster = false
writes Op.get_keyfile = false
writes _ = true

module _ ⦃lib : Library⦄ {D : Type 0} (fs : FileSystem D) (root : Text) where
  -- An operation answers or refuses as promised, or it writes and a call of the file system failed.
  pub data Refines (op : Op) (c : Contents) : Result Error Answer × D → Type 0 where
    answers :
        {a : Answer} {c' : Contents} {d : D}
        → promised op c ≡ (ok a, c')
        → Holds fs root d c'
        → Refines op c (ok a, d)
    refuses :
        {e : Error} {d : D}
        → promised op c ≡ (err e, c)
        → Holds fs root d c
        → Refines op c (err e, d)
    breaks :
        {c' : Contents} {d : D}
        → writes op ≡ true
        → Fault fs
        → Broken op c c'
        → Holds fs root d c'
        → Refines op c (err store_failed, d)

-- The ids that the operation names are plain, and its version fits in 64 bits; a manifest's is
-- not zero.
abbrev pub IsLegal : Op → Type 0
IsLegal (Op.put_blob id content) = IsPlain id
IsLegal (Op.get_blob id) = IsPlain id
IsLegal (Op.has_blob id) = IsPlain id
IsLegal (Op.delete_blob id) = IsPlain id
IsLegal (Op.cas_manifest expected blob new) = (0 < new) × (new < 2 ^ 64)
IsLegal (Op.cas_roster expected blob new) = new < 2 ^ 64
IsLegal _ = Unit

pub IsPlain-guard : (id : Text) → IsPlain id → (id == [] || has_separator id) ≡ false
unfolding is_plain
IsPlain-guard id h = ground arith

module _ {D : Type 0} (fs : FileSystem D) where
  -- What a chain of writes reports: one kind of error, and only where a call failed.
  abbrev pub Reports : Result Error (Unit {0}) → Type 0
  Reports r = (r ≡ ok tt) ⊎ ((r ≡ err store_failed) × Fault fs)

  close_and_rename-outcome :
      (t path : Text) (d : D) → Reports (close_and_rename ⦃fs = fs⦄ t path d).0
  unfolding close_and_rename
  close_and_rename-outcome t path d = elim (Bool-cases (fs.close t d).0) [
    | inr e ↦ rw e (inr (refl, close_failed t d e))
    | inl e ↦ elim (Bool-cases (fs.rename t path (fs.close t d).1).0) [
      | inr e' ↦ rw (e, e') (inr (refl, rename_failed t path _ e'))
      | inl e' ↦ rw (e, e') (inl refl)
    ]
  ]

  fill-outcome : (t path content : Text) (d : D) → Reports (fill ⦃fs = fs⦄ t path content d).0
  unfolding fill
  fill-outcome t path content d = elim (Bool-cases (fs.write t content d).0) [
    | inr e ↦ rw e (inr (refl, write_failed t content d e))
    | inl e ↦ rw e (close_and_rename-outcome t path (fs.write t content d).1)
  ]

  pub write_atomic-outcome :
      (path content : Text) (d : D) → Reports (write_atomic ⦃fs = fs⦄ path content d).0
  unfolding write_atomic
  write_atomic-outcome path content d = elim (Option-cases (fs.create_temp (fs.dir path) d).0) [
    | inl e ↦ rw e (inr (refl, temp_failed (fs.dir path) d e))
    | inr (t, e) ↦ rw e (fill-outcome t path content (fs.create_temp (fs.dir path) d).1)
  ]

module _ ⦃lib : Library⦄ {D : Type 0} (fs : FileSystem D) (laws : DiskLaws D fs) (root : Text) where
  -- An operation that ends with one write.
  pub wrote-Refines :
      {op : Op} {c c' : Contents} {Q : Unit {0} → D → Type 0} {X : D → Type 0}
      (p : Result Error (Unit {0}) × D)
      → Ends Q X p
      → Reports fs p.0
      → writes op ≡ true
      → promised op c ≡ (ok done, c')
      → ((d : D) → Q tt d → Holds fs root d c')
      → ((d : D) → X d → Holds fs root d c)
      → Refines fs root op c (answered (λ _. done) p)
  wrote-Refines (ok tt, d) (returns q) o w e f g = answers e (f d q)
  wrote-Refines (err x, d) (fails q) (inl o) w e f g = cc
  wrote-Refines {op = op} {c = c} (err x, d) (fails q) (inr (o, fault)) w e f g =
      subst (λ y. Refines fs root op c (err y, d)) (cc) (breaks w fault untouched (g d q))
