-- ===== src/Store/LocalFs/Pointers.antt =====
-- CASManifest and CASRoster of localfs.go, under their locks.
use secret_git.Prelude.{
  Text, codes, ℕ, ◌<◌, ◌^◌, ◌≡◌, ◌≢◌, refl, ◌∙◌, true, false, Option, none, some, List, [], ◌∷◌,
  nat_eq, text_eq, ◌==◌, Result, ok, All, inl, inr, Bool-cases, if◌then◌else◌, text_beq_iff,
  text_beq,
}
use secret_git.Errors.{Error}
use secret_git.Jcs.Decimal.{decimal}
use secret_git.Store.Disk.{FileSystem, IsPlain, is_plain}
use secret_git.Store.Ideal.{Contents}
use secret_git.Store.LocalFs.{
  manifest_of, read_version, roster_of, roster_version, manifest_blob_path, manifest_version_path,
  roster_blob_path, roster_version_path, blob_path, keyfile_path,
}
use secret_git.Store.LocalFs.Writes.{below, Same, SameBut, SameAll}
use secret_git.Store.LocalFs.Contents.{
  manifest_of-Same, roster_of-Same, read_version-Same, roster_version-Same, version_in-decimal,
  Holds,
}
use secret_git.Store.LocalFs.Swaps.{Swapped, both, blob_only, neither}

module _ {D : Type 0} (fs : FileSystem D) (root : Text) where
  -- The same content at every plain path outside a folder.
  pub record Outside (folder : Text) (d d' : D) : Type 0 where
    pub outside :
        (x : Text) (xs : List Text)
        → All IsPlain (x ∷ xs)
        → x ≢ folder
        → Same fs (below fs root x xs) d d'

  Outside-SameBut :
      (folder : Text) (ys : List Text) (d d' : D)
      → SameBut fs root (folder ∷ ys) d d'
      → Outside folder d d'
  Outside-SameBut folder ys d d' s = record { outside = λ x xs p n. s.same x xs p (λ e. n (cc e)) }

  Outside-then :
      (folder : Text) (d d1 d2 : D)
      → Outside folder d d1
      → Outside folder d1 d2
      → Outside folder d d2
  Outside-then folder d d1 d2 a b = record {
    outside = λ x xs p n. b.outside x xs p n ∙ a.outside x xs p n;
  }

  Outside-SameAll : (folder : Text) (d d' : D) → SameAll fs root d d' → Outside folder d d'
  Outside-SameAll folder d d' s = record { outside = λ x xs p n. s.same_all x xs p }

  pub Swapped-Outside :
      (folder blob version : Text) (d : D) {p : Result Error (Unit {0}) × D}
      → Swapped fs root folder blob version d p
      → Outside folder d p.1
  Swapped-Outside folder blob version d (both {d1 = d1} {d2 = d2} e s e' s') =
      Outside-then folder d d1 d2 (Outside-SameBut folder _ d d1 s)
        (Outside-SameBut folder _ d1 d2 s')
  Swapped-Outside folder blob version d (blob_only {d1 = d1} {d2 = d2} e s a fault) =
      Outside-then folder d d1 d2 (Outside-SameBut folder _ d d1 s) (Outside-SameAll folder d1 d2 a)
  Swapped-Outside folder blob version d (neither {d1 = d1} a fault) = Outside-SameAll folder d d1 a

  pub word_ne : (a b : Text) → text_beq a b ≡ false → a ≢ b
  word_ne a b f e = cc ((text_beq_iff a b).1 e, f)

  -- The contents where only the manifest's folder changed.
  pub Holds-manifest :
      (d d' : D) (c : Contents) (m : Option Text × ℕ)
      → Outside (codes "manifest") d d'
      → manifest_of ⦃fs = fs⦄ root d' ≡ ok m
      → read_version ⦃fs = fs⦄ root d' ≡ ok m.1
      → Holds fs root d c
      → Holds fs root d' (record c { manifest = m })
  unfolding blob_path roster_blob_path roster_version_path keyfile_path is_plain text_beq
  Holds-manifest d d' c m o e v h =
      let rb =
        o.outside (codes "roster") (codes "blob" ∷ []) (refl, (refl, tt)) (word_ne _ _ refl) in
      let rv =
        o.outside (codes "roster") (codes "version" ∷ []) (refl, (refl, tt)) (word_ne _ _ refl) in
      record {
        blob = λ id p.
            o.outside (codes "blobs") (id ∷ []) (refl, (p, tt)) (word_ne _ _ refl) ∙ h.blob id p;
        manifest = e;
        manifest_version = v;
        roster = roster_of-Same fs root d d' rv rb ∙ h.roster;
        roster_version = roster_version-Same fs root d d' rv ∙ h.roster_version;
        keyfile = o.outside (codes "keyfile") [] (refl, tt) (word_ne _ _ refl) ∙ h.keyfile;
      }

  -- The contents where only the roster's folder changed.
  pub Holds-roster :
      (d d' : D) (c : Contents) (r : Option Text × ℕ)
      → Outside (codes "roster") d d'
      → roster_of ⦃fs = fs⦄ root d' ≡ ok r
      → roster_version ⦃fs = fs⦄ root d' ≡ ok r.1
      → Holds fs root d c
      → Holds fs root d' (record c { roster = r })
  unfolding blob_path manifest_blob_path manifest_version_path keyfile_path is_plain text_beq
  Holds-roster d d' c r o e v h =
      let mb =
        o.outside (codes "manifest") (codes "blob" ∷ []) (refl, (refl, tt)) (word_ne _ _ refl) in
      let mv =
        o.outside (codes "manifest") (codes "version" ∷ []) (refl, (refl, tt)) (word_ne _ _ refl) in
      record {
        blob = λ id p.
            o.outside (codes "blobs") (id ∷ []) (refl, (p, tt)) (word_ne _ _ refl) ∙ h.blob id p;
        manifest = manifest_of-Same fs root d d' mv mb ∙ h.manifest;
        manifest_version = read_version-Same fs root d d' mv ∙ h.manifest_version;
        roster = e;
        roster_version = v;
        keyfile = o.outside (codes "keyfile") [] (refl, tt) (word_ne _ _ refl) ∙ h.keyfile;
      }

  -- What the manifest reads as, from its two files.
  pub read_both :
      (d : D) (blob : Text) (v : ℕ)
      → read_version ⦃fs = fs⦄ root d ≡ ok v
      → fs.read_file (manifest_blob_path fs root) d ≡ ok blob
      → manifest_of ⦃fs = fs⦄ root d ≡ ok (if v == 0 then (none, 0) else (some blob, v))
  unfolding manifest_of
  read_both d blob v e e' = elim (Bool-cases (v == 0)) [
    | inl t ↦ rw (e, t) refl
    | inr f ↦ rw (e, e', f) refl
  ]

  pub read_roster :
      (d : D) (blob : Text) (v : ℕ)
      → roster_version ⦃fs = fs⦄ root d ≡ ok v
      → fs.read_file (roster_blob_path fs root) d ≡ ok blob
      → roster_of ⦃fs = fs⦄ root d ≡ ok (some blob, v)
  unfolding roster_of
  read_roster d blob v e e' = rw (roster_of, e', e) refl

  pub read_none :
      (d : D) (v : ℕ)
      → read_version ⦃fs = fs⦄ root d ≡ ok v
      → (v == 0) ≡ true
      → manifest_of ⦃fs = fs⦄ root d ≡ ok (none, 0)
  unfolding manifest_of
  read_none d v e z = rw (e, z) refl

  pub version_written :
      (d : D) (v : ℕ)
      → v < 2 ^ 64
      → fs.read_file (manifest_version_path fs root) d ≡ ok (decimal v)
      → read_version ⦃fs = fs⦄ root d ≡ ok v
  unfolding read_version
  version_written d v h e = rw e (version_in-decimal v h)

  pub roster_version_written :
      (d : D) (v : ℕ)
      → v < 2 ^ 64
      → fs.read_file (roster_version_path fs root) d ≡ ok (decimal v)
      → roster_version ⦃fs = fs⦄ root d ≡ ok v
  unfolding roster_version
  roster_version_written d v h e = rw e (version_in-decimal v h)
