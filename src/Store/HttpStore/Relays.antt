-- ===== src/Store/HttpStore/Relays.antt =====
-- httpstore.go and server.go together: the requests on blobs and on the keyfile.
use secret_git.Prelude.{
  Text, ℕ, ◌<◌, ◌^◌, ◌≡◌, refl, true, Option, none, some, List, nat_eq, text_eq, Result, ok, length,
  leb,
}
use secret_git.Library.{Library}
use secret_git.Errors.{Error}
use secret_git.Jcs.Decimal.{decimal}
use secret_git.Server.{ServerError}
use secret_git.Server.Accounts.{Session}
use secret_git.Server.Files
use secret_git.Server.Http.{
  Service, Request, etag_text, parse_etag_version, auth_repo, authenticated, bearer, strip_prefix,
}
use secret_git.Server.Http.Numbers.{parse_etag_version-etag_text}
use secret_git.Server.Routes
use secret_git.Server.Routes.{DataRoute, needs_write, serve_data}
use secret_git.Store.Ideal.{Op, perform}
use secret_git.Store.HttpStore.{
  Transport, HttpStore, HttpRequest, HttpResponse, Method, Headers, no_headers, request, exchange,
  http_store,
}
use secret_git.Store.HttpStore
use secret_git.Store.HttpStore.Served.{
  rendered, received, method_of, suffix_of, Carries, IsPermitted, relayed,
}
use secret_git.Server.Http.Numbers.{parse_etag_version-decimal}
use secret_git.Store.HttpStore.{
  expect_success, expect_content, expect_presence, expect_pointer, expect_swap,
}
use secret_git.Store.HttpStore.Handled.{
  put_blob_handled, get_blob_handled, get_keyfile_handled, put_keyfile_handled,
}
use secret_git.Server.{File}
use secret_git.Store.HttpStore.Told.{
  put_blob_told, get_blob_told, get_keyfile_told, put_keyfile_told,
}

module _ ⦃lib : Library⦄ (net : Transport Service) (st : HttpStore) (limit now : ℕ) where
  -- The session of a request that carries the token.
  pub auth_repo-granted :
      (route : DataRoute) (acc : Session) (s : Service) (body : Option Text) (h : Headers)
      → IsPermitted net st limit now route acc s
      → auth_repo
          (received limit (request st (method_of route) (suffix_of route) body h))
          st.repo_id
          (needs_write route)
          now
          s
        ≡ ok acc
  unfolding auth_repo authenticated bearer strip_prefix request
  auth_repo-granted route acc s body h p = rw (p.token_set, p.session, p.permitted) refl

  -- An exchange on a route that is carried.
  pub exchange-carried :
      {A : Type 0} (route : DataRoute) (body : Option Text) (h : Headers)
      (f : HttpResponse → Result Error A) (s : Service)
      → Carries net st limit now route
      → exchange ⦃net = net⦄ (request st (method_of route) (suffix_of route) body h) f s ≡ (
          let (r, s') =
            serve_data route
              (received limit (request st (method_of route) (suffix_of route) body h))
              st.repo_id
              now
              s in
          (f (rendered r), s'))
  unfolding exchange
  exchange-carried route body h f s c = rw (c.accepted body h, c.carried body h s) refl

  -- The request of an operation, as the handler sees it.
  abbrev pub sent : DataRoute → Option Text → Headers → Request
  sent route body h = received limit (request st (method_of route) (suffix_of route) body h)

  pub sent_body :
      (route : DataRoute) (body : Text) (h : Headers)
      → leb (length body) limit ≡ true
      → (sent route (some body) h).body ≡ some body
  unfolding request
  sent_body route body h fit = rw fit refl

  pub sent_if_match :
      (route : DataRoute) (body : Option Text) (v : ℕ) (o : Option Text)
      → v < 2 ^ 64
      → parse_etag_version
          (sent route body (record { if_match = some (etag_text v); new_version = o })).if_match
        ≡ some v
  unfolding request
  sent_if_match route body v o h = parse_etag_version-etag_text v h

  pub sent_new_version :
      (route : DataRoute) (body : Option Text) (v : ℕ) (o : Option Text)
      → v < 2 ^ 64
      → parse_etag_version
          (sent route body (record { if_match = o; new_version = some (decimal v) })).new_version
        ≡ some v
  unfolding request
  sent_new_version route body v o h = parse_etag_version-decimal v h

  pub put_blob-relayed :
      (id content : Text) (s : Service) (acc : Session) (o : Result ServerError (List File))
      → Carries net st limit now (Routes.put_blob id)
      → IsPermitted net st limit now (Routes.put_blob id) acc s
      → leb (length content) limit ≡ true
      → Files.put_blob st.repo_id id content s.files ≡ o
      → perform (http_store ⦃net = net⦄ st) (Op.put_blob id content) s
        ≡ relayed st.repo_id (Op.put_blob id content) s
  unfolding http_store HttpStore.put_blob serve_data expect_success needs_write
  put_blob-relayed id content s acc o c p fit e =
      let h : Headers = no_headers in
      let r = sent (Routes.put_blob id) (some content) h in
      let handled =
        put_blob_handled r st.repo_id now s acc id content o
          (auth_repo-granted (Routes.put_blob id) acc s (some content) h p)
          (sent_body (Routes.put_blob id) content h fit) e in
      rw (exchange-carried (Routes.put_blob id) (some content) h expect_success s c, handled)
        (put_blob_told st.repo_id s id content o e)

  pub get_blob-relayed :
      (id : Text) (s : Service) (acc : Session) (o : Result ServerError Text)
      → Carries net st limit now (Routes.get_blob id)
      → IsPermitted net st limit now (Routes.get_blob id) acc s
      → Files.get_blob st.repo_id id s.files ≡ o
      → perform (http_store ⦃net = net⦄ st) (Op.get_blob id) s
        ≡ relayed st.repo_id (Op.get_blob id) s
  unfolding http_store HttpStore.get_blob serve_data expect_content needs_write
  get_blob-relayed id s acc o c p e =
      let h : Headers = no_headers in
      let r = sent (Routes.get_blob id) (none) h in
      let handled =
        get_blob_handled r st.repo_id now s acc id o
          (auth_repo-granted (Routes.get_blob id) acc s (none) h p) e in
      rw (exchange-carried (Routes.get_blob id) (none) h expect_content s c, handled)
        (get_blob_told st.repo_id s id o e)

  pub get_keyfile-relayed :
      (s : Service) (acc : Session) (o : Result ServerError Text)
      → Carries net st limit now (Routes.get_keyfile)
      → IsPermitted net st limit now (Routes.get_keyfile) acc s
      → Files.get_keyfile st.repo_id s.files ≡ o
      → perform (http_store ⦃net = net⦄ st) (Op.get_keyfile) s
        ≡ relayed st.repo_id (Op.get_keyfile) s
  unfolding http_store HttpStore.get_keyfile serve_data expect_content needs_write
  get_keyfile-relayed s acc o c p e =
      let h : Headers = no_headers in
      let r = sent (Routes.get_keyfile) (none) h in
      let handled =
        get_keyfile_handled r st.repo_id now s acc o
          (auth_repo-granted (Routes.get_keyfile) acc s (none) h p) e in
      rw (exchange-carried (Routes.get_keyfile) (none) h expect_content s c, handled)
        (get_keyfile_told st.repo_id s o e)

  pub put_keyfile-relayed :
      (content : Text) (s : Service) (acc : Session) (o : Result ServerError (List File))
      → Carries net st limit now (Routes.put_keyfile)
      → IsPermitted net st limit now (Routes.put_keyfile) acc s
      → leb (length content) limit ≡ true
      → Files.put_keyfile st.repo_id content s.files ≡ o
      → perform (http_store ⦃net = net⦄ st) (Op.put_keyfile content) s
        ≡ relayed st.repo_id (Op.put_keyfile content) s
  unfolding http_store HttpStore.put_keyfile serve_data expect_success needs_write
  put_keyfile-relayed content s acc o c p fit e =
      let h : Headers = no_headers in
      let r = sent (Routes.put_keyfile) (some content) h in
      let handled =
        put_keyfile_handled r st.repo_id now s acc content o
          (auth_repo-granted (Routes.put_keyfile) acc s (some content) h p)
          (sent_body Routes.put_keyfile content h fit) e in
      rw (exchange-carried (Routes.put_keyfile) (some content) h expect_success s c, handled)
        (put_keyfile_told st.repo_id s content o e)
