-- ===== src/Store/LocalFs/Contents.antt =====
-- The contents of a store in a directory, as the operations of localfs.go read them.
use secret_git.Prelude.{
  Text, codes, text_beq, text_beq_iff, ℕ, suc, ◌^◌, ◌<◌, ◌≡◌, ◌≢◌, refl, ◌∙◌, Bool, true, false,
  ◌&&◌, Option, List, [], ◌∷◌, nat_eq, text_eq, ok, or_err, arith,
}
use secret_git.Split.{is_space}
use secret_git.Jcs.Decimal.{decimal}
use secret_git.Server.Http.Numbers.{
  parse_uint-decimal, trim_space-kept, decimal_fuel-IsDigit, All-map, IsDigit,
}
use secret_git.Store.Disk.{FileSystem, IsPlain, not_exist, is_plain}
use secret_git.Store.LocalFs.{
  version_in, blob_path, manifest_blob_path, manifest_version_path, roster_blob_path,
  roster_version_path, keyfile_path, read_version, manifest_of, roster_version, roster_of,
}
use secret_git.Store.LocalFs.Writes.{Same, SameBut}
use secret_git.Store.Ideal.{Contents}

-- The version file is read back.
pub version_in-decimal : (v : ℕ) → v < 2 ^ 64 → version_in (ok (decimal v)) ≡ ok v
unfolding version_in decimal is_space
version_in-decimal v h =
    rw
      (
        trim_space-kept (decimal v) (
            All-map {P = IsDigit} (decimal v) (λ c d. ground arith)
              (decimal_fuel-IsDigit (suc v) v (omega arith))),
        parse_uint-decimal v h,
      )
      refl

-- Two paths below the root, compared.
unfoldable pub same_place : List Text → List Text → Bool
unfolding text_beq
same_place [] [] = true
same_place (x ∷ xs) (y ∷ ys) = text_beq x y && same_place xs ys
same_place _ _ = false

same_place_refl : (xs : List Text) → same_place xs xs ≡ true
unfolding same_place
same_place_refl [] = refl
same_place_refl (x ∷ xs) = rw ((text_beq_iff x x).1 refl) (same_place_refl xs)

-- Paths that compare false are not equal.
pub place_ne : (xs ys : List Text) → same_place xs ys ≡ false → xs ≢ ys
place_ne xs ys h e = cc (same_place_refl ys, rw e at h)

module _ {D : Type 0} (fs : FileSystem D) (root : Text) where
  -- The files below the root hold the contents.
  pub record Holds (d : D) (c : Contents) : Type 0 where
    pub blob :
        (id : Text)
        → IsPlain id
        → fs.read_file (blob_path fs root id) d ≡ or_err (c.blobs id) not_exist
    pub manifest : manifest_of ⦃fs = fs⦄ root d ≡ ok c.manifest
    pub manifest_version : read_version ⦃fs = fs⦄ root d ≡ ok c.manifest.1
    pub roster : roster_of ⦃fs = fs⦄ root d ≡ ok c.roster
    pub roster_version : roster_version ⦃fs = fs⦄ root d ≡ ok c.roster.1
    pub keyfile : fs.read_file (keyfile_path fs root) d ≡ or_err c.keyfile not_exist

  pub read_version-Same :
      (d d' : D)
      → Same fs (manifest_version_path fs root) d d'
      → read_version ⦃fs = fs⦄ root d' ≡ read_version ⦃fs = fs⦄ root d
  unfolding read_version
  read_version-Same d d' e = rw e refl

  pub manifest_of-Same :
      (d d' : D)
      → Same fs (manifest_version_path fs root) d d'
      → Same fs (manifest_blob_path fs root) d d'
      → manifest_of ⦃fs = fs⦄ root d' ≡ manifest_of ⦃fs = fs⦄ root d
  unfolding manifest_of
  manifest_of-Same d d' e e' = rw (e, e') refl

  pub roster_version-Same :
      (d d' : D)
      → Same fs (roster_version_path fs root) d d'
      → roster_version ⦃fs = fs⦄ root d' ≡ roster_version ⦃fs = fs⦄ root d
  unfolding roster_version
  roster_version-Same d d' e = rw e refl

  pub roster_of-Same :
      (d d' : D)
      → Same fs (roster_version_path fs root) d d'
      → Same fs (roster_blob_path fs root) d d'
      → roster_of ⦃fs = fs⦄ root d' ≡ roster_of ⦃fs = fs⦄ root d
  unfolding roster_of
  roster_of-Same d d' e e' = ground (arith, roster_version-Same d d' e, e')

  -- Where nothing changes at the plain paths but one, the contents change there alone.
  pub blob-SameBut :
      (d d' : D) (c : Contents) (ys : List Text)
      → SameBut fs root ys d d'
      → ((id : Text) → codes "blobs" ∷ id ∷ [] ≢ ys)
      → Holds d c
      → (id : Text) → IsPlain id
      → fs.read_file (blob_path fs root id) d' ≡ or_err (c.blobs id) not_exist
  unfolding blob_path is_plain text_beq
  blob-SameBut d d' c ys s n h id p =
      s.same (codes "blobs") (id ∷ []) (refl, (p, tt)) (n id) ∙ h.blob id p

  pub record SameManifest (d d' : D) : Type 0 where
    pub version_same : Same fs (manifest_version_path fs root) d d'
    pub blob_same : Same fs (manifest_blob_path fs root) d d'

  pub manifest-SameBut :
      (d d' : D) (ys : List Text)
      → SameBut fs root ys d d'
      → codes "manifest" ∷ codes "blob" ∷ [] ≢ ys
      → codes "manifest" ∷ codes "version" ∷ [] ≢ ys
      → SameManifest d d'
  unfolding manifest_blob_path manifest_version_path is_plain text_beq
  manifest-SameBut d d' ys s n m = record {
    version_same = s.same (codes "manifest") (codes "version" ∷ []) (refl, (refl, tt)) m;
    blob_same = s.same (codes "manifest") (codes "blob" ∷ []) (refl, (refl, tt)) n;
  }

  pub record SameRoster (d d' : D) : Type 0 where
    pub version_same : Same fs (roster_version_path fs root) d d'
    pub blob_same : Same fs (roster_blob_path fs root) d d'

  pub roster-SameBut :
      (d d' : D) (ys : List Text)
      → SameBut fs root ys d d'
      → codes "roster" ∷ codes "blob" ∷ [] ≢ ys
      → codes "roster" ∷ codes "version" ∷ [] ≢ ys
      → SameRoster d d'
  unfolding roster_blob_path roster_version_path is_plain text_beq
  roster-SameBut d d' ys s n m = record {
    version_same = s.same (codes "roster") (codes "version" ∷ []) (refl, (refl, tt)) m;
    blob_same = s.same (codes "roster") (codes "blob" ∷ []) (refl, (refl, tt)) n;
  }

  pub keyfile-SameBut :
      (d d' : D) (ys : List Text)
      → SameBut fs root ys d d'
      → codes "keyfile" ∷ [] ≢ ys
      → Same fs (keyfile_path fs root) d d'
  unfolding keyfile_path is_plain text_beq
  keyfile-SameBut d d' ys s n = s.same (codes "keyfile") [] (refl, tt) n

  -- The contents from the parts.
  pub Holds-parts :
      (d d' : D) (c : Contents) (blobs : Text → Option Text) (keyfile : Option Text)
      → Holds d c
      → ((id : Text)
          → IsPlain id
          → fs.read_file (blob_path fs root id) d' ≡ or_err (blobs id) not_exist)
      → SameManifest d d'
      → SameRoster d d'
      → fs.read_file (keyfile_path fs root) d' ≡ or_err keyfile not_exist
      → Holds d' (record c { blobs = blobs; keyfile = keyfile })
  Holds-parts d d' c blobs keyfile h b m r k = record {
    blob = b;
    manifest = manifest_of-Same d d' m.version_same m.blob_same ∙ h.manifest;
    manifest_version = read_version-Same d d' m.version_same ∙ h.manifest_version;
    roster = roster_of-Same d d' r.version_same r.blob_same ∙ h.roster;
    roster_version = roster_version-Same d d' r.version_same ∙ h.roster_version;
    keyfile = k;
  }

  -- A path that holds none of the contents.
  pub record IsApart (ys : List Text) : Type 0 where
    pub no_blob : (id : Text) → codes "blobs" ∷ id ∷ [] ≢ ys
    pub no_manifest_blob : codes "manifest" ∷ codes "blob" ∷ [] ≢ ys
    pub no_manifest_version : codes "manifest" ∷ codes "version" ∷ [] ≢ ys
    pub no_roster_blob : codes "roster" ∷ codes "blob" ∷ [] ≢ ys
    pub no_roster_version : codes "roster" ∷ codes "version" ∷ [] ≢ ys
    pub no_keyfile : codes "keyfile" ∷ [] ≢ ys

  pub Holds-IsApart :
      (d d' : D) (c : Contents) (ys : List Text)
      → IsApart ys
      → SameBut fs root ys d d'
      → Holds d c
      → Holds d' c
  Holds-IsApart d d' c ys a s h =
      Holds-parts d d' c c.blobs c.keyfile h (blob-SameBut d d' c ys s a.no_blob h)
        (manifest-SameBut d d' ys s a.no_manifest_blob a.no_manifest_version)
        (roster-SameBut d d' ys s a.no_roster_blob a.no_roster_version)
        (keyfile-SameBut d d' ys s a.no_keyfile ∙ h.keyfile)

  -- A path that compares false with each.
  IsApart-compared :
      (x y : Text)
      → ((id : Text) → same_place (codes "blobs" ∷ id ∷ []) (x ∷ y ∷ []) ≡ false)
      → same_place (codes "manifest" ∷ codes "blob" ∷ []) (x ∷ y ∷ []) ≡ false
      → same_place (codes "manifest" ∷ codes "version" ∷ []) (x ∷ y ∷ []) ≡ false
      → same_place (codes "roster" ∷ codes "blob" ∷ []) (x ∷ y ∷ []) ≡ false
      → same_place (codes "roster" ∷ codes "version" ∷ []) (x ∷ y ∷ []) ≡ false
      → IsApart (x ∷ y ∷ [])
  IsApart-compared x y b mb mv rb rv = record {
    no_blob = λ id. place_ne _ _ (b id);
    no_manifest_blob = place_ne _ _ mb;
    no_manifest_version = place_ne _ _ mv;
    no_roster_blob = place_ne _ _ rb;
    no_roster_version = place_ne _ _ rv;
    no_keyfile = λ h. cc;
  }

  pub manifest_lock-IsApart : IsApart (codes "manifest" ∷ codes "lock" ∷ [])
  unfolding same_place
  manifest_lock-IsApart =
      IsApart-compared (codes "manifest") (codes "lock") (λ id. refl) refl refl refl refl

  pub roster_lock-IsApart : IsApart (codes "roster" ∷ codes "lock" ∷ [])
  unfolding same_place
  roster_lock-IsApart =
      IsApart-compared (codes "roster") (codes "lock") (λ id. refl) refl refl refl refl
