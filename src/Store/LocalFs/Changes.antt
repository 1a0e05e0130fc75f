-- ===== src/Store/LocalFs/Changes.antt =====
-- What the contents of a directory are after one file of it is written or removed.
use secret_git.Prelude.{
  Text, codes, ◌≡◌, refl, ◌∙◌, Option, [], ◌∷◌, nat_eq, text_eq, ◌==◌, or_err, inl, inr, Bool-cases,
  text_beq_iff, text_beq,
}
use secret_git.Store.Disk.{FileSystem, IsPlain, not_exist, is_plain}
use secret_git.Store.Ideal.{Contents, with_blob}
use secret_git.Store.LocalFs.{blob_path, keyfile_path}
use secret_git.Store.LocalFs.Writes.{SameBut, SameAll}
use secret_git.Store.LocalFs.Contents.{
  Holds, Holds-parts, Holds-IsApart, manifest_lock-IsApart, place_ne, same_place, blob-SameBut,
  manifest-SameBut, roster-SameBut, keyfile-SameBut,
}

module _ {D : Type 0} (fs : FileSystem D) (root : Text) where
  pub Holds-SameAll :
      (d d' : D) (c : Contents) → SameAll fs root d d' → Holds fs root d c → Holds fs root d' c
  Holds-SameAll d d' c s h =
      Holds-IsApart fs root d d' c (codes "manifest" ∷ codes "lock" ∷ [])
        (manifest_lock-IsApart fs root) (record { same = λ x xs p n. s.same_all x xs p }) h

  pub Holds-keyfile :
      (d d' : D) (c : Contents) (content : Option Text)
      → SameBut fs root (codes "keyfile" ∷ []) d d'
      → fs.read_file (keyfile_path fs root) d' ≡ or_err content not_exist
      → Holds fs root d c
      → Holds fs root d' (record c { keyfile = content })
  Holds-keyfile d d' c content s e h =
      Holds-parts fs root d d' c c.blobs content h (blob-SameBut fs root d d' c _ s (λ id x. cc) h)
        (manifest-SameBut fs root d d' _ s (λ x. cc) (λ x. cc))
        (roster-SameBut fs root d d' _ s (λ x. cc) (λ x. cc)) e

  blob_changed :
      (d d' : D) (c : Contents) (id : Text) (content : Option Text)
      → SameBut fs root (codes "blobs" ∷ id ∷ []) d d'
      → fs.read_file (blob_path fs root id) d' ≡ or_err content not_exist
      → Holds fs root d c
      → (i : Text) → IsPlain i
      → fs.read_file (blob_path fs root i) d' ≡ or_err ((with_blob id content c).blobs i) not_exist
  unfolding blob_path is_plain text_beq
  blob_changed d d' c id content s e h i p = elim (Bool-cases (i == id)) [
    | inl t ↦ rw ((text_beq_iff i id).0 t, (text_beq_iff id id).1 refl) e
    | inr f ↦ rw f (
        s.same (codes "blobs") (i ∷ []) (refl, (p, tt)) (λ x. cc ((text_beq_iff i id).1 (cc x), f))
        ∙ h.blob i p)
  ]

  pub Holds-blob :
      (d d' : D) (c : Contents) (id : Text) (content : Option Text)
      → SameBut fs root (codes "blobs" ∷ id ∷ []) d d'
      → fs.read_file (blob_path fs root id) d' ≡ or_err content not_exist
      → Holds fs root d c
      → Holds fs root d' (with_blob id content c)
  unfolding same_place
  Holds-blob d d' c id content s e h =
      Holds-parts fs root d d' c (with_blob id content c).blobs c.keyfile h
        (blob_changed d d' c id content s e h)
        (manifest-SameBut fs root d d' _ s (place_ne _ _ refl) (place_ne _ _ refl))
        (roster-SameBut fs root d d' _ s (place_ne _ _ refl) (place_ne _ _ refl))
        (keyfile-SameBut fs root d d' _ s (λ x. cc) ∙ h.keyfile)
