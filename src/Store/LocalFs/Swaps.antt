-- ===== src/Store/LocalFs/Swaps.antt =====
-- The swaps of localfs.go do what the interface promises, or stop between the blob and the version.
use secret_git.Prelude.{
  Text, codes, ℕ, ◌≡◌, refl, subst, true, false, [], ◌∷◌, nat_eq, text_eq, ◌==◌, Result, ok, err,
  inl, inr, text_beq,
}
use secret_git.Errors.{Error, version_conflict, store_failed}
use secret_git.Exec.{continue}
use secret_git.Exec.Ends.{Ends, returns, fails}
use secret_git.Jcs.Decimal.{decimal}
use secret_git.Store.Disk.{FileSystem, DiskLaws, IsPlain, is_plain}
use secret_git.Store.LocalFs.{write_atomic, swap, blob_path}
use secret_git.Store.LocalFs.Writes.{below, SameBut, SameAll, write_atomic-Ends}
use secret_git.Store.LocalFs.Refinement.{Fault, Reports, write_atomic-outcome}

module _ {D : Type 0} (fs : FileSystem D) (root : Text) where
  -- What the two writes of a swap in a folder leave.
  pub data Swapped (folder blob version : Text) (d : D) : Result Error (Unit {0}) × D → Type 0 where
    both :
        {d1 d2 : D}
        → fs.read_file (below fs root folder (codes "blob" ∷ [])) d1 ≡ ok blob
        → SameBut fs root (folder ∷ codes "blob" ∷ []) d d1
        → fs.read_file (below fs root folder (codes "version" ∷ [])) d2 ≡ ok version
        → SameBut fs root (folder ∷ codes "version" ∷ []) d1 d2
        → Swapped folder blob version d (ok tt, d2)
    blob_only :
        {d1 d2 : D}
        → fs.read_file (below fs root folder (codes "blob" ∷ [])) d1 ≡ ok blob
        → SameBut fs root (folder ∷ codes "blob" ∷ []) d d1
        → SameAll fs root d1 d2
        → Fault fs
        → Swapped folder blob version d (err store_failed, d2)
    neither :
        {d1 : D}
        → SameAll fs root d d1
        → Fault fs
        → Swapped folder blob version d (err store_failed, d1)

module _ {D : Type 0} (fs : FileSystem D) (laws : DiskLaws D fs) (root : Text) where
  second :
      (folder blob version : Text) (d d1 : D)
      → fs.read_file (below fs root folder (codes "blob" ∷ [])) d1 ≡ ok blob
      → SameBut fs root (folder ∷ codes "blob" ∷ []) d d1
      → (p : Result Error (Unit {0}) × D) → Reports fs p.0
      → Ends
          (λ _ d'.
            (fs.read_file (below fs root folder (codes "version" ∷ [])) d' ≡ ok version)
            × SameBut fs root (folder ∷ codes "version" ∷ []) d1 d')
          (λ d'. SameAll fs root d1 d')
          p
      → Swapped fs root folder blob version d p
  second folder blob version d d1 e s (ok tt, d2) o (returns q) = both e s q.0 q.1
  second folder blob version d d1 e s (err x, d2) (inl o) (fails q) = cc
  second folder blob version d d1 e s (err x, d2) (inr (o, fault)) (fails q) =
      subst (λ y. Swapped fs root folder blob version d (err y, d2)) (cc) (blob_only e s q fault)

  first :
      (folder blob version : Text) (d : D)
      → IsPlain folder
      → (p : Result Error (Unit {0}) × D) → Reports fs p.0
      → Ends
          (λ _ d'.
            (fs.read_file (below fs root folder (codes "blob" ∷ [])) d' ≡ ok blob)
            × SameBut fs root (folder ∷ codes "blob" ∷ []) d d')
          (λ d'. SameAll fs root d d')
          p
      → Swapped fs root folder blob version d (
          continue p.0
            (λ _. write_atomic ⦃fs = fs⦄ (below fs root folder (codes "version" ∷ [])) version)
            p.1)
  unfolding is_plain text_beq
  first folder blob version d plain (ok tt, d1) o (returns q) =
      second folder blob version d d1 q.0 q.1 _
        (write_atomic-outcome fs (below fs root folder (codes "version" ∷ [])) version d1)
        (write_atomic-Ends fs laws root folder (codes "version" ∷ []) version d1
          (plain, (refl, tt)))
  first folder blob version d plain (err x, d1) (inl o) (fails q) = cc
  first folder blob version d plain (err x, d1) (inr (o, fault)) (fails q) =
      subst (λ y. Swapped fs root folder blob version d (err y, d1)) (cc) (neither q fault)

  -- A swap at the version that it expects.
  pub swap-Swapped :
      (folder blob : Text) (cur expected new : ℕ) (d : D)
      → IsPlain folder
      → (cur == expected) ≡ true
      → Swapped fs root folder blob (decimal new) d (
          swap ⦃fs = fs⦄
            (ok cur)
            (below fs root folder (codes "blob" ∷ []))
            (below fs root folder (codes "version" ∷ []))
            expected
            blob
            new
            d)
  unfolding swap is_plain text_beq
  swap-Swapped folder blob cur expected new d plain t = rw t (
      first folder blob (decimal new) d plain _
        (write_atomic-outcome fs (below fs root folder (codes "blob" ∷ [])) blob d)
        (write_atomic-Ends fs laws root folder (codes "blob" ∷ []) blob d (plain, (refl, tt))))

  -- A swap at another version does nothing.
  pub swap_refused :
      (blob_path version_path blob : Text) (cur expected new : ℕ) (d : D)
      → (cur == expected) ≡ false
      → swap ⦃fs = fs⦄ (ok cur) blob_path version_path expected blob new d
        ≡ (err version_conflict, d)
  unfolding swap
  swap_refused blob_path version_path blob cur expected new d f = rw f refl
