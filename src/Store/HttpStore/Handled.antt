-- ===== src/Store/HttpStore/Handled.antt =====
-- What the handlers of server.go answer to a request with a session: the outcome of the storage.
use secret_git.Prelude.{
  Text, ℕ, ◌≡◌, refl, true, false, Option, none, some, List, [], nat_eq, text_eq, Result, ok, err,
}
use secret_git.Library.{Library}
use secret_git.Server.{ServerError, Db}
use secret_git.Server.Accounts.{Session}
use secret_git.Server.Repos.{role_for}
use secret_git.Server.Repos
use secret_git.Server.Files
use secret_git.Server.Http.{Service, Request, Response, respond, parse_etag_version, auth_repo}
use secret_git.Server.Handlers.{
  handle_put_manifest, handle_get_manifest, handle_put_blob, handle_get_blob, handle_put_roster,
  handle_get_roster, handle_put_keyfile, handle_get_keyfile,
}
use secret_git.Server.Http.{reply, reply_with, reply_etag}
use secret_git.Server.Handlers.{swap_error}
use secret_git.Server.{bad_hash, File, Pointer}

-- The response to an outcome of the storage, and the service after it.
abbrev pub blob_stored : Service → Result ServerError (List File) → Response × Service
blob_stored s (ok files) = (reply 204, record s { files = files })
blob_stored s (err bad_hash) = (reply 400, s)
blob_stored s (err _) = (reply 500, s)

abbrev pub keyfile_stored : Service → Result ServerError (List File) → Response × Service
keyfile_stored s (ok files) = (reply 204, record s { files = files })
keyfile_stored s (err _) = (reply 500, s)

abbrev pub content_found : Service → Result ServerError Text → Response × Service
content_found s (ok content) = (reply_with 200 content, s)
content_found s (err _) = (reply 404, s)

abbrev pub pointer_found : Service → Option Pointer → Response × Service
pointer_found s none = (reply 404, s)
pointer_found s (some p) = (reply_etag 200 p.version p.blob, s)

abbrev pub manifest_swapped : Service → Result ServerError (ℕ × Db) → Response × Service
manifest_swapped s (ok (version, db)) = (reply_etag 204 version [], record s { db = db })
manifest_swapped s (err e) = (swap_error e, s)

abbrev pub roster_swapped : Service → ℕ → Result ServerError Db → Response × Service
roster_swapped s new (ok db) = (reply_etag 204 new [], record s { db = db })
roster_swapped s new (err e) = (swap_error e, s)

module _ ⦃lib : Library⦄ (r : Request) (repo_id : Text) (now : ℕ) (s : Service)
    (acc : Session) where
  pub put_blob_handled :
      (id content : Text) (o : Result ServerError (List File))
      → auth_repo r repo_id true now s ≡ ok acc
      → r.body ≡ some content
      → Files.put_blob repo_id id content s.files ≡ o
      → handle_put_blob r repo_id id now s ≡ blob_stored s o
  unfolding handle_put_blob respond
  put_blob_handled id content (ok files) a b e = rw (a, b, e) refl
  put_blob_handled id content (err bad_hash) a b e = rw (a, b, e) refl
  put_blob_handled id content (err x) a b e = rw (a, b, e) refl

  pub get_blob_handled :
      (id : Text) (o : Result ServerError Text)
      → auth_repo r repo_id false now s ≡ ok acc
      → Files.get_blob repo_id id s.files ≡ o
      → handle_get_blob r repo_id id now s ≡ content_found s o
  unfolding handle_get_blob respond
  get_blob_handled id (ok content) a e = rw (a, e) refl
  get_blob_handled id (err x) a e = rw (a, e) refl

  pub get_keyfile_handled :
      (o : Result ServerError Text)
      → auth_repo r repo_id false now s ≡ ok acc
      → Files.get_keyfile repo_id s.files ≡ o
      → handle_get_keyfile r repo_id now s ≡ content_found s o
  unfolding handle_get_keyfile respond
  get_keyfile_handled (ok content) a e = rw (a, e) refl
  get_keyfile_handled (err x) a e = rw (a, e) refl

  pub put_keyfile_handled :
      (content : Text) (o : Result ServerError (List File))
      → auth_repo r repo_id true now s ≡ ok acc
      → r.body ≡ some content
      → Files.put_keyfile repo_id content s.files ≡ o
      → handle_put_keyfile r repo_id now s ≡ keyfile_stored s o
  unfolding handle_put_keyfile respond
  put_keyfile_handled content (ok files) a b e = rw (a, b, e) refl
  put_keyfile_handled content (err x) a b e = rw (a, b, e) refl

  pub get_manifest_handled :
      (o : Option Pointer)
      → auth_repo r repo_id false now s ≡ ok acc
      → Repos.get_manifest repo_id s.db ≡ o
      → handle_get_manifest r repo_id now s ≡ pointer_found s o
  unfolding handle_get_manifest respond
  get_manifest_handled none a e = rw (a, e) refl
  get_manifest_handled (some p) a e = rw (a, e) refl

  pub get_roster_handled :
      (o : Option Pointer)
      → auth_repo r repo_id false now s ≡ ok acc
      → Repos.get_roster repo_id s.db ≡ o
      → handle_get_roster r repo_id now s ≡ pointer_found s o
  unfolding handle_get_roster respond
  get_roster_handled none a e = rw (a, e) refl
  get_roster_handled (some p) a e = rw (a, e) refl

  pub put_manifest_handled :
      (expected : ℕ) (blob : Text) (o : Result ServerError (ℕ × Db))
      → auth_repo r repo_id true now s ≡ ok acc
      → parse_etag_version r.if_match ≡ some expected
      → r.body ≡ some blob
      → Repos.cas_manifest repo_id expected blob s.db ≡ o
      → handle_put_manifest r repo_id now s ≡ manifest_swapped s o
  unfolding handle_put_manifest respond
  put_manifest_handled expected blob (ok (version, db)) a v b e = rw (a, v, b, e) refl
  put_manifest_handled expected blob (err x) a v b e = rw (a, v, b, e) refl

  pub put_roster_handled :
      (expected new : ℕ) (blob : Text) (o : Result ServerError Db)
      → auth_repo r repo_id true now s ≡ ok acc
      → parse_etag_version r.if_match ≡ some expected
      → parse_etag_version r.new_version ≡ some new
      → r.body ≡ some blob
      → Repos.cas_roster repo_id expected new blob s.db ≡ o
      → handle_put_roster r repo_id now s ≡ roster_swapped s new o
  unfolding handle_put_roster respond
  put_roster_handled expected new blob (ok db) a v w b e = rw (a, v, w, b, e) refl
  put_roster_handled expected new blob (err x) a v w b e = rw (a, v, w, b, e) refl
