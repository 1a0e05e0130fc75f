-- ===== src/Store/LocalFs/Blobs.antt =====
-- The operations of localfs.go on blobs and on the keyfile do what the interface promises.
use secret_git.Prelude.{
  Text, codes, ◌≡◌, refl, ◌∙◌, ap, true, Option, none, some, [], ◌∷◌, nat_eq, text_eq, ◌==◌, Result,
  ok, err, or_err, inl, inr, Bool-cases, if◌then◌else◌, arith, text_beq,
}
use secret_git.Library.{Library}
use secret_git.Errors.{Error}
use secret_git.Hex.{sha256_hex}
use secret_git.Store.Disk.{FileSystem, DiskLaws, FileError, IsPlain, not_exist, io_error, is_plain}
use secret_git.Store.Ideal.{Contents, Op, Answer, perform, promised, is_present}
use secret_git.Store.LocalFs
use secret_git.Store.LocalFs.{
  local_store, write_atomic, with_temp, fill, close_and_rename, removing, blob_path, keyfile_path,
}
use secret_git.Store.LocalFs.Writes.{SameBut, write_atomic-Ends}
use secret_git.Store.LocalFs.Contents.{Holds}
use secret_git.Store.LocalFs.Refinement.{
  untouched, Refines, remove_failed, answers, refuses, breaks, IsPlain-guard, write_atomic-outcome,
  wrote-Refines,
}
use secret_git.Store.LocalFs.Changes.{Holds-SameAll, Holds-keyfile, Holds-blob}

module _ ⦃lib : Library⦄ {D : Type 0} (fs : FileSystem D) (laws : DiskLaws D fs) (root : Text) where
  -- The operation on the directory.
  abbrev pub local : Op → D → Result Error Answer × D
  local op d = perform (local_store ⦃fs = fs⦄ root) op d

  pub put_keyfile-Refines :
      (content : Text) (d : D) (c : Contents)
      → Holds fs root d c
      → Refines fs root (Op.put_keyfile content) c (local (Op.put_keyfile content) d)
  unfolding local_store LocalFs.put_keyfile promised keyfile_path is_plain text_beq
  put_keyfile-Refines content d c h =
      wrote-Refines fs laws root (write_atomic ⦃fs = fs⦄ (keyfile_path fs root) content d)
        (write_atomic-Ends fs laws root (codes "keyfile") [] content d (refl, tt))
        (write_atomic-outcome fs (keyfile_path fs root) content d) refl refl
        (λ d' q. Holds-keyfile fs root d d' c (some content) q.1 q.0 h)
        (λ d' s. Holds-SameAll fs root d d' c s h)

  pub get_keyfile-Refines :
      (d : D) (c : Contents) (o : Option Text)
      → c.keyfile ≡ o
      → Holds fs root d c
      → Refines fs root Op.get_keyfile c (local Op.get_keyfile d)
  unfolding local_store LocalFs.get_keyfile promised
  get_keyfile-Refines d c none e h =
      rw (h.keyfile ∙ ap (λ (x : Option Text). or_err x not_exist) e) (refuses (ground arith) h)
  get_keyfile-Refines d c (some content) e h =
      rw (h.keyfile ∙ ap (λ (x : Option Text). or_err x not_exist) e) (answers (ground arith) h)

  pub get_blob-Refines :
      (id : Text) (d : D) (c : Contents) (o : Option Text)
      → IsPlain id
      → c.blobs id ≡ o
      → Holds fs root d c
      → Refines fs root (Op.get_blob id) c (local (Op.get_blob id) d)
  unfolding local_store LocalFs.get_blob promised
  get_blob-Refines id d c none p e h = rw (h.blob id p, e) (refuses (ground arith) h)
  get_blob-Refines id d c (some content) p e h = rw (h.blob id p, e) (answers (ground arith) h)

  -- What Stat reports of a blob's path.
  stat-blob :
      (id : Text) (d : D) (c : Contents) (o : Option Text)
      → IsPlain id
      → c.blobs id ≡ o
      → Holds fs root d c
      → fs.stat (blob_path fs root id) d ≡ (if is_present o then ok tt else err not_exist)
  stat-blob id d c none p e h =
      (laws.stat_missing (blob_path fs root id) d).1 (h.blob id p ∙ rw e refl)
  stat-blob id d c (some content) p e h =
      laws.stat_readable (blob_path fs root id) content d (h.blob id p ∙ rw e refl)

  pub has_blob-Refines :
      (id : Text) (d : D) (c : Contents) (o : Option Text)
      → IsPlain id
      → c.blobs id ≡ o
      → Holds fs root d c
      → Refines fs root (Op.has_blob id) c (local (Op.has_blob id) d)
  unfolding local_store LocalFs.has_blob promised
  has_blob-Refines id d c none p e h =
      rw (LocalFs.has_blob, stat-blob id d c none p e h) (answers (ground arith) h)
  has_blob-Refines id d c (some content) p e h =
      rw (LocalFs.has_blob, stat-blob id d c (some content) p e h) (answers (ground arith) h)

  -- A blob with the right hash.
  put_checked :
      (id content : Text) (d : D) (c : Contents) (o : Option Text)
      → IsPlain id
      → (sha256_hex content == id) ≡ true
      → c.blobs id ≡ o
      → Holds fs root d c
      → Refines fs root (Op.put_blob id content) c (local (Op.put_blob id content) d)
  unfolding local_store LocalFs.put_blob promised blob_path is_plain text_beq
  put_checked id content d c (some old) p t e h =
      rw (LocalFs.put_blob, IsPlain-guard id p, t, stat-blob id d c (some old) p e h)
        (answers (ground arith) h)
  put_checked id content d c none p t e h =
      rw (LocalFs.put_blob, IsPlain-guard id p, t, stat-blob id d c none p e h)
        (wrote-Refines fs laws root (write_atomic ⦃fs = fs⦄ (blob_path fs root id) content d)
          (write_atomic-Ends fs laws root (codes "blobs") (id ∷ []) content d (refl, (p, tt)))
          (write_atomic-outcome fs (blob_path fs root id) content d) refl (ground arith)
          (λ d' q. Holds-blob fs root d d' c id (some content) q.1 q.0 h)
          (λ d' s. Holds-SameAll fs root d d' c s h))

  pub put_blob-Refines :
      (id content : Text) (d : D) (c : Contents)
      → IsPlain id
      → Holds fs root d c
      → Refines fs root (Op.put_blob id content) c (local (Op.put_blob id content) d)
  unfolding local_store LocalFs.put_blob promised
  put_blob-Refines id content d c p h = elim (Bool-cases (sha256_hex content == id)) [
    | inr f ↦ rw (LocalFs.put_blob, IsPlain-guard id p, f) (refuses (ground arith) h)
    | inl t ↦ put_checked id content d c (c.blobs id) p t refl h
  ]

  -- Remove changes one path, and none where it fails.
  remove-SameBut :
      (id : Text) (d : D)
      → IsPlain id
      → SameBut fs root (codes "blobs" ∷ id ∷ []) d (fs.remove (blob_path fs root id) d).1
  unfolding blob_path is_plain text_beq
  remove-SameBut id d p = record {
    same = λ x xs q n.
        laws.remove_same (blob_path fs root id) _ d (λ e.
          n (laws.join_injective root (x ∷ xs) (codes "blobs" ∷ id ∷ []) q (refl, (p, tt)) e));
  }

  pub removed-Refines :
      (id : Text) (d : D) (c : Contents) (r : Result FileError (Unit {0}))
      → IsPlain id
      → (fs.remove (blob_path fs root id) d).0 ≡ r
      → Holds fs root d c
      → Refines fs root (Op.delete_blob id) c (local (Op.delete_blob id) d)
  unfolding local_store LocalFs.delete_blob promised
  removed-Refines id d c (ok tt) p e h =
      rw (LocalFs.delete_blob, IsPlain-guard id p, e)
        (answers refl (
          Holds-blob fs root d _ c id none (remove-SameBut id d p)
            (laws.remove_gone (blob_path fs root id) d e) h))
  removed-Refines id d c (err not_exist) p e h =
      rw (LocalFs.delete_blob, IsPlain-guard id p, e)
        (answers refl (
          Holds-blob fs root d _ c id none (remove-SameBut id d p)
            (laws.remove_failed (blob_path fs root id) _ d not_exist e
              ∙ laws.remove_missing (blob_path fs root id) d e)
            h))
  removed-Refines id d c (err io_error) p e h =
      rw (LocalFs.delete_blob, IsPlain-guard id p, e)
        (breaks refl (remove_failed (blob_path fs root id) d e) untouched (
          Holds-SameAll fs root d _ c
            (record {
              same_all = λ x xs q. laws.remove_failed (blob_path fs root id) _ d io_error e;
            })
            h))
