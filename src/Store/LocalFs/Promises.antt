-- ===== src/Store/LocalFs/Promises.antt =====
-- localfs.go as a whole: every operation of the store does what the interface promises.
use secret_git.Prelude.{
  Text, codes, ℕ, ◌<◌, ◌^◌, ◌≡◌, refl, ◌∙◌, Option, none, some, nat_eq, text_eq, ◌==◌, Result, ok,
  err, ==_sound, inl, inr, Bool-cases, arith, text_beq,
}
use secret_git.Library.{Library}
use secret_git.Errors.{Error}
use secret_git.Jcs.Decimal.{decimal}
use secret_git.Store.Disk.{FileSystem, DiskLaws, FileError, not_exist, io_error, is_plain}
use secret_git.Store.Ideal.{Contents, Op, answered, perform, promised, done}
use secret_git.Store.LocalFs
use secret_git.Store.LocalFs.{
  manifest_of, read_version, roster_of, roster_version, manifest_blob_path, manifest_version_path,
  roster_blob_path, roster_version_path, stored_roster_version, with_lock, version_in, local_store,
  lock_path, roster_lock_path, write_atomic, with_temp, fill, close_and_rename, removing, swap,
  blob_path, keyfile_path,
}
use secret_git.Store.LocalFs.Contents.{
  roster_lock-IsApart, roster_version-Same, Holds, manifest_lock-IsApart, place_ne, same_place,
}
use secret_git.Store.LocalFs.Refinement.{
  untouched, roster_blob_only, Refines, answers, refuses, breaks, IsLegal,
}
use secret_git.Store.LocalFs.Changes.{Holds-SameAll}
use secret_git.Store.LocalFs.Swaps.{Swapped, both, blob_only, neither, swap-Swapped, swap_refused}
use secret_git.Store.LocalFs.Pointers.{
  Holds-roster, Outside, Swapped-Outside, read_roster, roster_version_written,
}
use secret_git.Store.LocalFs.Locks.{with_lock-Refines, manifest_swapped}
use secret_git.Store.LocalFs.Blobs.{
  local, put_blob-Refines, get_blob-Refines, has_blob-Refines, removed-Refines, put_keyfile-Refines,
  get_keyfile-Refines,
}

module _ ⦃lib : Library⦄ {D : Type 0} (fs : FileSystem D) (laws : DiskLaws D fs) (root : Text) where
  ok_second :
      (r : Option Text × ℕ)
      → Path (Result Error (Option Text × ℕ)) (ok (none, 0)) (ok r)
      → Path (Result Error ℕ) (ok 0) (ok r.1)
  ok_second (a, b) e = cc e

  roster_swapped :
      (blob : Text) (expected new : ℕ) (d : D) (c : Contents) {p : Result Error (Unit {0}) × D}
      → new < 2 ^ 64
      → c.roster.1 ≡ expected
      → Outside fs root (codes "roster") d p.1
      → Swapped fs root (codes "roster") blob (decimal new) d p
      → Holds fs root d c
      → Refines fs root (Op.cas_roster expected blob new) c (answered (λ _. done) p)
  unfolding roster_blob_path roster_version_path is_plain same_place promised
  roster_swapped blob expected new d c fits e o (both {d1 = d1} {d2 = d2} b s v s') h =
      let v' = roster_version_written fs root d2 new fits v in
      answers (ground arith) (
        Holds-roster fs root d d2 c (some blob, new) o
          (read_roster fs root d2 blob new v'
            (s'.same _ _ (refl, (refl, tt)) (place_ne _ _ refl) ∙ b))
          v' h)
  roster_swapped blob expected new d c fits e o (blob_only {d1 = d1} {d2 = d2} b s a fault) h =
      let v' =
        roster_version-Same fs root d d2
          (a.same_all _ _ (refl, (refl, tt)) ∙ s.same _ _ (refl, (refl, tt)) (place_ne _ _ refl))
        ∙ h.roster_version in
      breaks refl fault (roster_blob_only e) (
        Holds-roster fs root d d2 c (some blob, c.roster.1) o
          (read_roster fs root d2 blob c.roster.1 v' (a.same_all _ _ (refl, (refl, tt)) ∙ b)) v' h)
  roster_swapped blob expected new d c fits e o (neither {d1 = d1} a fault) h =
      breaks refl fault untouched (Holds-SameAll fs root d d1 c a h)

  -- Under the lock.
  manifest_body :
      (expected new : ℕ) (blob : Text) (d : D) (c : Contents)
      → 0 < new
      → new < 2 ^ 64
      → Holds fs root d c
      → Refines fs root (Op.cas_manifest expected blob new) c (
          answered
            (λ _. done)
            (swap ⦃fs = fs⦄
              (read_version ⦃fs = fs⦄ root d)
              (manifest_blob_path fs root)
              (manifest_version_path fs root)
              expected
              blob
              new
              d))
  unfolding manifest_blob_path manifest_version_path is_plain text_beq promised
  manifest_body expected new blob d c pos fits h = elim (Bool-cases (c.manifest.1 == expected)) [
    | inl t ↦
        let s =
          swap-Swapped fs laws root (codes "manifest") blob c.manifest.1 expected new d refl t in
        rw h.manifest_version (
          manifest_swapped fs laws root blob expected new d c pos fits
            (==_sound c.manifest.1 expected t)
            (Swapped-Outside fs root (codes "manifest") blob (decimal new) d s) s h)
    | inr f ↦
        rw
          (
            h.manifest_version,
            swap_refused fs laws root (manifest_blob_path fs root) (manifest_version_path fs root)
                blob c.manifest.1 expected new d f,
          )
          (refuses (ground arith) h)
  ]

  cas_manifest-Refines :
      (expected new : ℕ) (blob : Text) (d : D) (c : Contents)
      → 0 < new
      → new < 2 ^ 64
      → Holds fs root d c
      → Refines fs root
          (Op.cas_manifest expected blob new)
          c
          (local fs laws root (Op.cas_manifest expected blob new) d)
  unfolding local_store LocalFs.cas_manifest is_plain text_beq lock_path
  cas_manifest-Refines expected new blob d c pos fits h =
      with_lock-Refines fs laws root (codes "manifest") (codes "lock")
        (λ d'.
          swap ⦃fs = fs⦄ (read_version ⦃fs = fs⦄ root d') (manifest_blob_path fs root)
            (manifest_version_path fs root) expected blob new d')
        d refl (refl, (refl, tt)) (manifest_lock-IsApart fs root)
        (λ d' h'. manifest_body expected new blob d' c pos fits h') h

  -- The version that CASRoster reads.
  stored-eq :
      (d : D) (c : Contents) (r : Result FileError Text)
      → fs.read_file (roster_blob_path fs root) d ≡ r
      → Holds fs root d c
      → stored_roster_version ⦃fs = fs⦄ root d ≡ ok c.roster.1
  unfolding roster_of stored_roster_version
  stored-eq d c (ok b) e h =
      rw (stored_roster_version, laws.stat_readable (roster_blob_path fs root) b d e)
        h.roster_version
  stored-eq d c (err not_exist) e h =
      rw (stored_roster_version, (laws.stat_missing (roster_blob_path fs root) d).1 e)
        (ok_second c.roster (rw (roster_of, e) at h.roster))
  stored-eq d c (err io_error) e h = cc (rw (roster_of, e) at h.roster)

  roster_body :
      (expected new : ℕ) (blob : Text) (d : D) (c : Contents)
      → new < 2 ^ 64
      → Holds fs root d c
      → Refines fs root (Op.cas_roster expected blob new) c (
          answered
            (λ _. done)
            (swap ⦃fs = fs⦄
              (stored_roster_version ⦃fs = fs⦄ root d)
              (roster_blob_path fs root)
              (roster_version_path fs root)
              expected
              blob
              new
              d))
  unfolding roster_blob_path roster_version_path is_plain text_beq promised
  roster_body expected new blob d c fits h = elim (Bool-cases (c.roster.1 == expected)) [
    | inl t ↦
        let s = swap-Swapped fs laws root (codes "roster") blob c.roster.1 expected new d refl t in
        rw (stored-eq d c _ refl h) (
          roster_swapped blob expected new d c fits (==_sound c.roster.1 expected t)
            (Swapped-Outside fs root (codes "roster") blob (decimal new) d s) s h)
    | inr f ↦
        rw
          (
            stored-eq d c _ refl h,
            swap_refused fs laws root (roster_blob_path fs root) (roster_version_path fs root) blob
                c.roster.1 expected new d f,
          )
          (refuses (ground arith) h)
  ]

  cas_roster-Refines :
      (expected new : ℕ) (blob : Text) (d : D) (c : Contents)
      → new < 2 ^ 64
      → Holds fs root d c
      → Refines fs root
          (Op.cas_roster expected blob new)
          c
          (local fs laws root (Op.cas_roster expected blob new) d)
  unfolding local_store LocalFs.cas_roster is_plain text_beq roster_lock_path
  cas_roster-Refines expected new blob d c fits h =
      with_lock-Refines fs laws root (codes "roster") (codes "lock")
        (λ d'.
          swap ⦃fs = fs⦄ (stored_roster_version ⦃fs = fs⦄ root d') (roster_blob_path fs root)
            (roster_version_path fs root) expected blob new d')
        d refl (refl, (refl, tt)) (roster_lock-IsApart fs root)
        (λ d' h'. roster_body expected new blob d' c fits h') h

  get_manifest-Refines :
      (d : D) (c : Contents)
      → Holds fs root d c
      → Refines fs root Op.get_manifest c (local fs laws root Op.get_manifest d)
  unfolding local_store LocalFs.get_manifest promised
  get_manifest-Refines d c h = rw h.manifest (answers refl h)

  get_roster-Refines :
      (d : D) (c : Contents)
      → Holds fs root d c
      → Refines fs root Op.get_roster c (local fs laws root Op.get_roster d)
  unfolding local_store LocalFs.get_roster promised
  get_roster-Refines d c h = rw h.roster (answers refl h)

  -- On a disk with these contents, every legal operation of the local store answers or refuses as
  -- the interface promises, and leaves a disk with the promised contents. Only an operation that
  -- writes may report a failure of the store instead, and only where a call of the file system
  -- that writes fails; then the contents are untouched or, in a swap at the right version, the
  -- blob of the pointer is replaced under its old version.
  pub local_store-Refines :
      (op : Op) (d : D) (c : Contents)
      → IsLegal op
      → Holds fs root d c
      → Refines fs root op c (perform (local_store ⦃fs = fs⦄ root) op d)
  local_store-Refines (Op.put_blob id content) d c l h =
      put_blob-Refines fs laws root id content d c l h
  local_store-Refines (Op.get_blob id) d c l h =
      get_blob-Refines fs laws root id d c (c.blobs id) l refl h
  local_store-Refines (Op.has_blob id) d c l h =
      has_blob-Refines fs laws root id d c (c.blobs id) l refl h
  local_store-Refines (Op.delete_blob id) d c l h = removed-Refines fs laws root id d c _ l refl h
  local_store-Refines Op.get_manifest d c l h = get_manifest-Refines d c h
  local_store-Refines Op.get_roster d c l h = get_roster-Refines d c h
  local_store-Refines Op.get_keyfile d c l h = get_keyfile-Refines fs laws root d c c.keyfile refl h
  local_store-Refines (Op.cas_manifest expected blob new) d c l h =
      cas_manifest-Refines expected new blob d c l.0 l.1 h
  local_store-Refines (Op.cas_roster expected blob new) d c l h =
      cas_roster-Refines expected new blob d c l h
  local_store-Refines (Op.put_keyfile content) d c l h =
      put_keyfile-Refines fs laws root content d c h
