-- ===== src/Store/HttpStore/Told.antt =====
-- What httpstore.go makes of the handlers' responses.
use secret_git.Prelude.{
  Text, ℕ, ◌<◌, ◌^◌, ◌≡◌, refl, Option, none, some, List, nat_eq, text_eq, Result, ok, err,
}
use secret_git.Library.{Library}
use secret_git.Server.{ServerError, conflict, bad_hash, Db}
use secret_git.Server.Repos.{role_for}
use secret_git.Server.Repos
use secret_git.Server.Files
use secret_git.Server.Http.{Service}
use secret_git.Server.Http.Numbers.{parse_etag_version-etag_text}
use secret_git.Store.Ideal.{Op, done, bytes, pointer, answered}
use secret_git.Store.HttpStore.Served.{rendered, relayed}
use secret_git.Store.HttpStore.{expect_success, expect_content, expect_pointer, expect_swap}
use secret_git.Store.HttpStore.Handled.{
  blob_stored, keyfile_stored, content_found, pointer_found, manifest_swapped, roster_swapped,
}
use secret_git.Server.{File, Pointer}

-- What the client makes of the response to an outcome of the storage.
module _ ⦃lib : Library⦄ (repo_id : Text) (s : Service) where
  pub put_blob_told :
      (id content : Text) (o : Result ServerError (List File))
      → Files.put_blob repo_id id content s.files ≡ o
      → answered (λ _. done) (expect_success (rendered (blob_stored s o).0), (blob_stored s o).1)
        ≡ relayed repo_id (Op.put_blob id content) s
  unfolding expect_success relayed
  put_blob_told id content (ok files) e = rw (relayed, e) refl
  put_blob_told id content (err bad_hash) e = rw (relayed, e) refl
  put_blob_told id content (err x) e = rw (relayed, e) refl

  pub get_blob_told :
      (id : Text) (o : Result ServerError Text)
      → Files.get_blob repo_id id s.files ≡ o
      → answered bytes (expect_content (rendered (content_found s o).0), (content_found s o).1)
        ≡ relayed repo_id (Op.get_blob id) s
  unfolding expect_content relayed
  get_blob_told id (ok content) e = rw (relayed, e) refl
  get_blob_told id (err x) e = rw (relayed, e) refl

  pub get_keyfile_told :
      (o : Result ServerError Text)
      → Files.get_keyfile repo_id s.files ≡ o
      → answered bytes (expect_content (rendered (content_found s o).0), (content_found s o).1)
        ≡ relayed repo_id Op.get_keyfile s
  unfolding expect_content relayed
  get_keyfile_told (ok content) e = rw (relayed, e) refl
  get_keyfile_told (err x) e = rw (relayed, e) refl

  pub put_keyfile_told :
      (content : Text) (o : Result ServerError (List File))
      → Files.put_keyfile repo_id content s.files ≡ o
      → answered
          (λ _. done)
          (expect_success (rendered (keyfile_stored s o).0), (keyfile_stored s o).1)
        ≡ relayed repo_id (Op.put_keyfile content) s
  unfolding expect_success relayed
  put_keyfile_told content (ok files) e = rw (relayed, e) refl
  put_keyfile_told content (err x) e = rw (relayed, e) refl

  pub get_manifest_told :
      (o : Option Pointer)
      → Repos.get_manifest repo_id s.db ≡ o
      → ((p : Pointer) → o ≡ some p → p.version < 2 ^ 64)
      → answered pointer (expect_pointer (rendered (pointer_found s o).0), (pointer_found s o).1)
        ≡ relayed repo_id Op.get_manifest s
  unfolding expect_pointer relayed
  get_manifest_told none e fits = rw (relayed, e) refl
  get_manifest_told (some p) e fits =
      rw (relayed, e, parse_etag_version-etag_text p.version (fits p refl)) refl

  pub get_roster_told :
      (o : Option Pointer)
      → Repos.get_roster repo_id s.db ≡ o
      → ((p : Pointer) → o ≡ some p → p.version < 2 ^ 64)
      → answered pointer (expect_pointer (rendered (pointer_found s o).0), (pointer_found s o).1)
        ≡ relayed repo_id Op.get_roster s
  unfolding expect_pointer relayed
  get_roster_told none e fits = rw (relayed, e) refl
  get_roster_told (some p) e fits =
      rw (relayed, e, parse_etag_version-etag_text p.version (fits p refl)) refl

  pub put_manifest_told :
      (expected new : ℕ) (blob : Text) (o : Result ServerError (ℕ × Db))
      → Repos.cas_manifest repo_id expected blob s.db ≡ o
      → answered
          (λ _. done)
          (expect_swap (rendered (manifest_swapped s o).0), (manifest_swapped s o).1)
        ≡ relayed repo_id (Op.cas_manifest expected blob new) s
  unfolding expect_swap relayed
  put_manifest_told expected new blob (ok (version, db)) e = rw (relayed, e) refl
  put_manifest_told expected new blob (err conflict) e = rw (relayed, e) refl
  put_manifest_told expected new blob (err x) e = rw (relayed, e) refl

  pub put_roster_told :
      (expected new : ℕ) (blob : Text) (o : Result ServerError Db)
      → Repos.cas_roster repo_id expected new blob s.db ≡ o
      → answered
          (λ _. done)
          (expect_swap (rendered (roster_swapped s new o).0), (roster_swapped s new o).1)
        ≡ relayed repo_id (Op.cas_roster expected blob new) s
  unfolding expect_swap relayed
  put_roster_told expected new blob (ok db) e = rw (relayed, e) refl
  put_roster_told expected new blob (err conflict) e = rw (relayed, e) refl
  put_roster_told expected new blob (err x) e = rw (relayed, e) refl
