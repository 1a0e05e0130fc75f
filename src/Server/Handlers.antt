-- ===== src/Server/Handlers.antt =====
-- internal/server/server.go: the handlers of the data endpoints and of the administration.
use secret_git.Prelude.{
  Text, ℕ, true, false, ◌||◌, Option, [], if◌then◌else◌, ◌==◌, nat_eq, text_eq, option_eq, Result,
  ok, guard, or_err,
}
use secret_git.Prelude.Results.{◌>>=◌, ◌>>◌}
use secret_git.Library.{Library}
use secret_git.Server.{
  ServerError, bad_hash, not_found, conflict, last_admin, role_reader, role_writer,
}
use secret_git.Server.Accounts.{account_by_username, disable_account, enable_account}
use secret_git.Server.Repos.{
  create_repo, repo_exists, grant_access, create_invite, get_manifest, get_roster, cas_manifest,
  cas_roster,
}
use secret_git.Server.Files.{
  safe_name, get_blob, has_blob, put_blob, delete_blob, put_keyfile, get_keyfile,
}
use secret_git.Server.Http.{
  Service, Config, Request, Response, reply, reply_with, reply_etag, respond, or_reply,
  parse_etag_version, auth_repo, auth_admin,
}

-- The body, or 413 where it is too large.
abbrev pub body_of : Request → Result Response Text
body_of r = or_err r.body (reply 413)

-- If-Match, or 428.
abbrev pub if_match_of : Request → Result Response ℕ
if_match_of r = or_err (parse_etag_version r.if_match) (reply 428)

abbrev pub swap_error : ServerError → Response
swap_error conflict = reply 412
swap_error _ = reply 500

module _ ⦃lib : Library⦄ where
  unfoldable pub handle_get_blob : Request → Text → Text → ℕ → Service → Response × Service
  handle_get_blob r repo_id hash now s =
      respond
        (do
          _ ← auth_repo r repo_id false now s
          content ← or_reply (get_blob repo_id hash s.files) (λ _. reply 404)
          ok (reply_with 200 content, s))
        s

  unfoldable pub handle_head_blob : Request → Text → Text → ℕ → Service → Response × Service
  handle_head_blob r repo_id hash now s =
      respond
        (do
          _ ← auth_repo r repo_id false now s
          ok (if has_blob repo_id hash s.files then reply 200 else reply 404, s))
        s

  unfoldable pub handle_put_blob : Request → Text → Text → ℕ → Service → Response × Service
  handle_put_blob r repo_id hash now s =
      respond
        (do
          _ ← auth_repo r repo_id true now s
          content ← body_of r
          files ←
              or_reply (put_blob repo_id hash content s.files)
                (λ e. elim e [ bad_hash ↦ reply 400 | _ ↦ reply 500 ])
          ok (reply 204, record s { files = files }))
        s

  unfoldable pub handle_delete_blob : Request → Text → Text → ℕ → Service → Response × Service
  handle_delete_blob r repo_id hash now s =
      respond
        (do
          _ ← auth_repo r repo_id true now s
          ok (reply 204, record s { files = delete_blob repo_id hash s.files }))
        s

  -- getManifest gives nil for the blob where there is no row, which is `none`; a driver that gave nil
  -- for an empty blob too would have it answered with 404 here.
  unfoldable pub handle_get_manifest : Request → Text → ℕ → Service → Response × Service
  handle_get_manifest r repo_id now s =
      respond
        (do
          _ ← auth_repo r repo_id false now s
          p ← or_err (get_manifest repo_id s.db) (reply 404)
          ok (reply_etag 200 p.version p.blob, s))
        s

  unfoldable pub handle_put_manifest : Request → Text → ℕ → Service → Response × Service
  handle_put_manifest r repo_id now s =
      respond
        (do
          _ ← auth_repo r repo_id true now s
          expected ← if_match_of r
          blob ← body_of r
          (version, db) ← or_reply (cas_manifest repo_id expected blob s.db) swap_error
          ok (reply_etag 204 version [], record s { db = db }))
        s

  unfoldable pub handle_get_roster : Request → Text → ℕ → Service → Response × Service
  handle_get_roster r repo_id now s =
      respond
        (do
          _ ← auth_repo r repo_id false now s
          p ← or_err (get_roster repo_id s.db) (reply 404)
          ok (reply_etag 200 p.version p.blob, s))
        s

  unfoldable pub handle_put_roster : Request → Text → ℕ → Service → Response × Service
  handle_put_roster r repo_id now s =
      respond
        (do
          _ ← auth_repo r repo_id true now s
          expected ← if_match_of r
          new_version ← or_err (parse_etag_version r.new_version) (reply 400)
          blob ← body_of r
          db ← or_reply (cas_roster repo_id expected new_version blob s.db) swap_error
          ok (reply_etag 204 new_version [], record s { db = db }))
        s

  unfoldable pub handle_get_keyfile : Request → Text → ℕ → Service → Response × Service
  handle_get_keyfile r repo_id now s =
      respond
        (do
          _ ← auth_repo r repo_id false now s
          content ← or_reply (get_keyfile repo_id s.files) (λ _. reply 404)
          ok (reply_with 200 content, s))
        s

  unfoldable pub handle_put_keyfile : Request → Text → ℕ → Service → Response × Service
  handle_put_keyfile r repo_id now s =
      respond
        (do
          _ ← auth_repo r repo_id true now s
          content ← body_of r
          files ← or_reply (put_keyfile repo_id content s.files) (λ _. reply 500)
          ok (reply 204, record s { files = files }))
        s

  -- The founder's grant at the end of handleCreateRepo: the repository stays created where the
  -- account is unknown.
  unfoldable pub grant_founder : Text → Text → Service → Response × Service
  grant_founder founder repo_id s =
      if founder == []
      then (reply 201, s)
      else respond
          (do
            a ← or_reply (account_by_username founder s.db) (λ _. reply 400)
            ok (reply 201, record s { db = grant_access a.id repo_id role_writer s.db }))
          s

  -- The decoded request is the repository and the founder's username.
  unfoldable pub handle_create_repo :
      Request → Option (Text × Text) → ℕ → Service → Response × Service
  handle_create_repo r decoded now s =
      respond
        (do
          _ ← auth_admin r now s
          (repo_id, founder) ← or_err decoded (reply 400)
          guard (safe_name repo_id) (reply 400)
          db ← or_reply (create_repo repo_id now s.db) (λ _. reply 409)
          ok (grant_founder founder repo_id (record s { db = db })))
        s

  -- The decoded request is the role.
  unfoldable pub handle_create_invite :
      Config → Text → Request → Text → Option Text → ℕ → Service → Response × Service
  handle_create_invite cfg drawn r repo_id decoded now s =
      respond
        (do
          _ ← auth_admin r now s
          guard (repo_exists repo_id s.db) (reply 404)
          role ← or_err decoded (reply 400)
          guard (role == role_reader || role == role_writer) (reply 400)
          (token, db) ←
              or_reply (create_invite drawn repo_id role now cfg.invite_ttl s.db) (λ _. reply 500)
          ok (reply_with 201 token, record s { db = db }))
        s

  unfoldable pub handle_disable_account : Request → Text → ℕ → Service → Response × Service
  handle_disable_account r username now s =
      respond
        (do
          _ ← auth_admin r now s
          db ←
              or_reply (disable_account username s.db)
                (λ e. elim e [ not_found ↦ reply 404 | last_admin ↦ reply 409 | _ ↦ reply 500 ])
          ok (reply 204, record s { db = db }))
        s

  unfoldable pub handle_enable_account : Request → Text → ℕ → Service → Response × Service
  handle_enable_account r username now s =
      respond
        (do
          _ ← auth_admin r now s
          db ←
              or_reply (enable_account username s.db)
                (λ e. elim e [ not_found ↦ reply 404 | _ ↦ reply 500 ])
          ok (reply 204, record s { db = db }))
        s
