-- ===== src/Store/LocalFs/Locks.antt =====
-- CASManifest and CASRoster of localfs.go, whole: the lock, the comparison and the two writes.
use secret_git.Prelude.{
  Text, codes, ℕ, ◌<◌, ◌^◌, ◌≡◌, ◌≢◌, refl, sym, ◌∙◌, Bool, true, false, some, [], ◌∷◌, nat_eq,
  text_eq, ◌==◌, Result, ok, err, All, inl, inr, Bool-cases, arith,
}
use secret_git.Library.{Library}
use secret_git.Errors.{Error, store_failed}
use secret_git.Exec.{Exec}
use secret_git.Jcs.Decimal.{decimal}
use secret_git.Store.Disk.{FileSystem, DiskLaws, IsPlain, is_plain}
use secret_git.Store.Ideal.{Contents, Op, Answer, answered, promised, done}
use secret_git.Store.LocalFs.{read_version, manifest_blob_path, manifest_version_path, with_lock}
use secret_git.Store.LocalFs.Writes.{below, Same}
use secret_git.Store.LocalFs.Contents.{
  IsApart, read_version-Same, Holds, Holds-IsApart, place_ne, same_place,
}
use secret_git.Store.LocalFs.Refinement.{
  untouched, Fault, writes, open_failed, lock_failed, manifest_blob_only, Refines, answers, refuses,
  breaks,
}
use secret_git.Store.LocalFs.Changes.{Holds-SameAll}
use secret_git.Store.LocalFs.Swaps.{Swapped, both, blob_only, neither}
use secret_git.Store.LocalFs.Pointers.{
  Holds-manifest, Outside, read_both, read_none, version_written,
}

module _ ⦃lib : Library⦄ {D : Type 0} (fs : FileSystem D) (laws : DiskLaws D fs) (root : Text) where
  -- A state later than the operation in which the same contents stand.
  Refines-later :
      {op : Op} {c : Contents} {p : Result Error Answer × D} (d : D)
      → Refines fs root op c p
      → ((c' : Contents) → Holds fs root p.1 c' → Holds fs root d c')
      → Refines fs root op c (p.0, d)
  Refines-later d (answers {c' = c'} e h) f = answers e (f c' h)
  Refines-later {c = c} d (refuses e h) f = refuses e (f c h)
  Refines-later d (breaks {c' = c'} w fault b h) f = breaks w fault b (f c' h)

  answered_later :
      {op : Op} {c : Contents} (p : Result Error (Unit {0}) × D) (d : D)
      → Refines fs root op c (answered (λ _. done) p)
      → ((c' : Contents) → Holds fs root p.1 c' → Holds fs root d c')
      → Refines fs root op c (answered (λ _. done) (p.0, d))
  answered_later (ok tt, d') d r f = Refines-later d r f
  answered_later (err e, d') d r f = Refines-later d r f

  pub with_lock-Refines :
      {op : Op} {c : Contents} (x y : Text) (body : Exec D (Unit {0})) (d : D)
      → writes op ≡ true
      → All IsPlain (x ∷ y ∷ [])
      → IsApart fs root (x ∷ y ∷ [])
      → ((d' : D) → Holds fs root d' c → Refines fs root op c (answered (λ _. done) (body d')))
      → Holds fs root d c
      → Refines fs root op c
          (answered (λ _. done) (with_lock ⦃fs = fs⦄ (below fs root x (y ∷ [])) body d))
  unfolding with_lock
  with_lock-Refines {c = c} x y body d w plain apart run h =
      let path = below fs root x (y ∷ []) in
      let d1 = (fs.open_file path d).1 in
      let d2 = (fs.flock path d1).1 in
      let d3 = (body d2).1 in
      let kept =
        λ (c' : Contents) (e e' : D) (s : (q : Text) → q ≢ path → Same fs q e e')
            (k : Holds fs root e c').
          Holds-IsApart fs root e e' c' (x ∷ y ∷ []) apart
            (record {
              same = λ z zs p n.
                  s _ (λ j. n (laws.join_injective root (z ∷ zs) (x ∷ y ∷ []) p plain j));
            })
            k in
      let h1 = kept c d d1 (λ q n. laws.open_file_same path q d n) h in
      let h2 = kept c d1 d2 (λ q n. laws.flock_same path q d1) h1 in
      elim (Bool-cases (fs.open_file path d).0) [
        | inr e ↦ rw e (breaks w (open_failed path d e) untouched h1)
        | inl e ↦ elim (Bool-cases (fs.flock path d1).0) [
          | inr e' ↦
              rw (e, e')
                (breaks w (lock_failed path d1 e') untouched
                  (kept c d2 _ (λ q n. laws.close_same path q d2) h2))
          | inl e' ↦
              rw (e, e')
                (answered_later (body d2) _ (run d2 h2) (λ c' k.
                  kept c' d3 _ (λ q n. laws.close_same path q _ ∙ laws.unlock_same path q d3) k))
        ]
      ]

  promised_manifest :
      (blob : Text) (expected new : ℕ) (c : Contents)
      → c.manifest.1 ≡ expected
      → promised (Op.cas_manifest expected blob new) c
        ≡ (ok done, record c { manifest = (some blob, new) })
  unfolding promised
  promised_manifest blob expected new c e = ground arith

  -- The state of a manifest of version v whose blob alone was replaced.
  torn_manifest :
      (blob : Text) (expected new : ℕ) (d d' : D) (c : Contents) (b : Bool)
      → c.manifest.1 ≡ expected
      → (c.manifest.1 == 0) ≡ b
      → Outside fs root (codes "manifest") d d'
      → read_version ⦃fs = fs⦄ root d' ≡ ok c.manifest.1
      → fs.read_file (manifest_blob_path fs root) d' ≡ ok blob
      → Fault fs
      → Holds fs root d c
      → Refines fs root (Op.cas_manifest expected blob new) c (err store_failed, d')
  torn_manifest blob expected new d d' c false e z o v r fault h =
      breaks refl fault (manifest_blob_only e) (
        Holds-manifest fs root d d' c (some blob, c.manifest.1) o
          (read_both fs root d' blob c.manifest.1 v r ∙ rw z refl) v h)
  torn_manifest blob expected new d d' c true e z o v r fault h = breaks refl fault untouched (
      Holds-manifest fs root d d' c c.manifest o
        (read_none fs root d' c.manifest.1 v z
          ∙ sym (read_none fs root d c.manifest.1 h.manifest_version z)
          ∙ h.manifest)
        v h)

  pub manifest_swapped :
      (blob : Text) (expected new : ℕ) (d : D) (c : Contents) {p : Result Error (Unit {0}) × D}
      → 0 < new
      → new < 2 ^ 64
      → c.manifest.1 ≡ expected
      → Outside fs root (codes "manifest") d p.1
      → Swapped fs root (codes "manifest") blob (decimal new) d p
      → Holds fs root d c
      → Refines fs root (Op.cas_manifest expected blob new) c (answered (λ _. done) p)
  unfolding manifest_blob_path manifest_version_path is_plain same_place
  manifest_swapped blob expected new d c pos fits e o (both {d1 = d1} {d2 = d2} b s v s') h =
      let v' = version_written fs root d2 new fits v in
      answers (promised_manifest blob expected new c e) (
        Holds-manifest fs root d d2 c (some blob, new) o
          (read_both fs root d2 blob new v' (s'.same _ _ (refl, (refl, tt)) (place_ne _ _ refl) ∙ b)
            ∙ ground arith)
          v' h)
  manifest_swapped blob expected new d c pos fits e o (blob_only {d1 = d1} {d2 = d2} b s a fault)
        h =
      torn_manifest blob expected new d d2 c _ e refl o
        (read_version-Same fs root d d2
            (a.same_all _ _ (refl, (refl, tt)) ∙ s.same _ _ (refl, (refl, tt)) (place_ne _ _ refl))
          ∙ h.manifest_version)
        (a.same_all (codes "manifest") (codes "blob" ∷ []) (refl, (refl, tt)) ∙ b) fault h
  manifest_swapped blob expected new d c pos fits e o (neither {d1 = d1} a fault) h =
      breaks refl fault untouched (Holds-SameAll fs root d d1 c a h)
