-- ===== src/Store/LocalFs/Races.antt =====
-- Two clients of one directory: swaps after each other, and a read between the two writes of a
-- swap, which GetManifest of localfs.go does without the lock.
use secret_git.Prelude.{
  Text, codes, ℕ, ◌<◌, ◌^◌, ◌≡◌, ◌≢◌, refl, sym, ◌∙◌, ap, false, some, [], ◌∷◌, nat_eq, text_eq,
  ◌==◌, Bool-cases, inl, inr, Result, ok, ==_sound,
}
use secret_git.Library.{Library}
use secret_git.Errors.{Error}
use secret_git.Exec.Ends.{Ends-ok}
use secret_git.Store.Disk.{FileSystem, DiskLaws, is_plain}
use secret_git.Store.Ideal.{Contents, Op, Answer, perform, promised, done}
use secret_git.Store.LocalFs.{
  local_store, write_atomic, manifest_blob_path, manifest_version_path, manifest_of,
}
use secret_git.Store.LocalFs.Writes.{write_atomic-Ends}
use secret_git.Store.LocalFs.Contents.{Holds, read_version-Same, place_ne, same_place}
use secret_git.Store.LocalFs.Refinement.{Refines, answers, refuses, breaks}
use secret_git.Store.LocalFs.Pointers.{read_both}
use secret_git.Store.LocalFs.Promises.{local_store-Refines}

module _ ⦃lib : Library⦄ {D : Type 0} (fs : FileSystem D) (laws : DiskLaws D fs) (root : Text) where
  -- An answer is the promised one.
  pub Refines-ok :
      {op : Op} {c : Contents} {p : Result Error Answer × D} {a : Answer}
      → Refines fs root op c p
      → p.0 ≡ ok a
      → (c' : Contents) × (promised op c ≡ (ok a, c')) × Holds fs root p.1 c'
  Refines-ok (answers {c' = c'} e h) k = (c', e ∙ cc k, h)
  Refines-ok (refuses e h) k = cc
  Refines-ok (breaks w fault b h) k = cc

  new_version :
      {a : Answer} {c c' : Contents}
      → Path (Result Error Answer × Contents) (ok done, c) (ok a, c')
      → c'.manifest.1 ≡ c.manifest.1
  new_version e = sym (ap (λ (x : Result Error Answer × Contents). x.1.manifest.1) e)

  swapped_version :
      (expected new : ℕ) (blob : Text) (a : Answer) (c c' : Contents)
      → promised (Op.cas_manifest expected blob new) c ≡ (ok a, c')
      → (c.manifest.1 ≡ expected) × (c'.manifest.1 ≡ new)
  unfolding promised
  swapped_version expected new blob a c c' e = elim (Bool-cases (c.manifest.1 == expected)) [
    | inl t ↦ (==_sound c.manifest.1 expected t, new_version (rw (promised, t) at e))
    | inr f ↦ cc (rw (promised, f) at e)
  ]

  -- Of two swaps of the manifest from one version, one after the other, where the first succeeds
  -- with another version the second does not succeed.
  pub one_swap_wins :
      (expected new new' : ℕ) (blob blob' : Text) (d : D) (c : Contents)
      → Holds fs root d c
      → (0 < new) × (new < 2 ^ 64)
      → (0 < new') × (new' < 2 ^ 64)
      → new ≢ expected
      → (perform (local_store ⦃fs = fs⦄ root) (Op.cas_manifest expected blob new) d).0 ≡ ok done
      → (perform
          (local_store ⦃fs = fs⦄ root)
          (Op.cas_manifest expected blob' new')
          (perform (local_store ⦃fs = fs⦄ root) (Op.cas_manifest expected blob new) d).1).0
        ≢ ok done
  one_swap_wins expected new new' blob blob' d c h l l' n e e' =
      let (c1, e1, h1) =
        Refines-ok (local_store-Refines fs laws root (Op.cas_manifest expected blob new) d c l h)
          e in
      let (c2, e2, h2) =
        Refines-ok
          (local_store-Refines fs laws root (Op.cas_manifest expected blob' new') _ c1 l' h1) e' in
      n (
        sym (swapped_version expected new blob done c c1 e1).1
        ∙ (swapped_version expected new' blob' done c1 c2 e2).0)

  -- A read of the manifest after the first of the two writes of a swap returns the new blob under
  -- the old version, where the old version is not 0.
  pub torn_read :
      (blob : Text) (d : D) (c : Contents)
      → Holds fs root d c
      → (c.manifest.1 == 0) ≡ false
      → (write_atomic ⦃fs = fs⦄ (manifest_blob_path fs root) blob d).0 ≡ ok tt
      → manifest_of ⦃fs = fs⦄ root (write_atomic ⦃fs = fs⦄ (manifest_blob_path fs root) blob d).1
        ≡ ok (some blob, c.manifest.1)
  unfolding manifest_blob_path manifest_version_path is_plain same_place
  torn_read blob d c h z e =
      let q =
        Ends-ok
          (write_atomic-Ends fs laws root (codes "manifest") (codes "blob" ∷ []) blob d
            (refl, (refl, tt)))
          e in
      read_both fs root _ blob c.manifest.1
        (read_version-Same fs root d _ (q.1.same _ _ (refl, (refl, tt)) (place_ne _ _ refl))
          ∙ h.manifest_version)
        q.0
      ∙ rw z refl
