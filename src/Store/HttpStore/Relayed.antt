-- ===== src/Store/HttpStore/Relayed.antt =====
-- The whole of httpstore.go over the handlers of server.go, operation by operation.
use secret_git.Prelude.{
  Text, ℕ, ◌≡◌, refl, Bool, true, false, none, if◌then◌else◌, nat_eq, text_eq, ok,
}
use secret_git.Library.{Library}
use secret_git.Server.Accounts.{Session}
use secret_git.Server.Files
use secret_git.Server.Http.{Service, Request, respond, reply, auth_repo}
use secret_git.Server.Routes
use secret_git.Server.Routes.{DataRoute, needs_write, serve_data}
use secret_git.Store.Ideal.{Op, perform}
use secret_git.Store.HttpStore.{
  Transport, HttpStore, HttpRequest, HttpResponse, Method, Headers, no_headers, request, exchange,
  http_store,
}
use secret_git.Store.HttpStore
use secret_git.Store.HttpStore.Served.{rendered, route_of, Carries, IsPermitted, Fits, relayed}
use secret_git.Store.HttpStore.{
  expect_success, expect_content, expect_presence, expect_pointer, expect_swap,
}
use secret_git.Server.Handlers.{handle_head_blob, handle_delete_blob}
use secret_git.Store.HttpStore.Relays.{
  auth_repo-granted, exchange-carried, sent, put_blob-relayed, get_blob-relayed,
  get_keyfile-relayed, put_keyfile-relayed,
}
use secret_git.Store.HttpStore.Swapped.{
  get_manifest-relayed, get_roster-relayed, put_manifest-relayed, put_roster-relayed,
}

module _ ⦃lib : Library⦄ (r : Request) (repo_id : Text) (now : ℕ) (s : Service)
    (acc : Session) where
  head_blob_handled :
      (id : Text)
      → auth_repo r repo_id false now s ≡ ok acc
      → handle_head_blob r repo_id id now s
        ≡ (if Files.has_blob repo_id id s.files then reply 200 else reply 404, s)
  unfolding handle_head_blob respond
  head_blob_handled id a = rw a refl

  delete_blob_handled :
      (id : Text)
      → auth_repo r repo_id true now s ≡ ok acc
      → handle_delete_blob r repo_id id now s
        ≡ (reply 204, record s { files = Files.delete_blob repo_id id s.files })
  unfolding handle_delete_blob respond
  delete_blob_handled id a = rw a refl

-- The status of a HEAD as a Bool.
presence_told : (b : Bool) → expect_presence (rendered (if b then reply 200 else reply 404)) ≡ ok b
unfolding expect_presence
presence_told true = refl
presence_told false = refl

module _ ⦃lib : Library⦄ (net : Transport Service) (st : HttpStore) (limit now : ℕ) where
  has_blob-relayed :
      (id : Text) (s : Service) (acc : Session)
      → Carries net st limit now (Routes.head_blob id)
      → IsPermitted net st limit now (Routes.head_blob id) acc s
      → perform (http_store ⦃net = net⦄ st) (Op.has_blob id) s
        ≡ relayed st.repo_id (Op.has_blob id) s
  unfolding http_store HttpStore.has_blob serve_data needs_write relayed
  has_blob-relayed id s acc c p =
      let route = Routes.head_blob id in
      let handled =
        head_blob_handled (sent net st limit now route none no_headers) st.repo_id now s acc id
          (auth_repo-granted net st limit now route acc s none no_headers p) in
      rw
        (
          exchange-carried net st limit now route none no_headers expect_presence s c,
          handled,
          presence_told (Files.has_blob st.repo_id id s.files),
        )
        refl

  delete_blob-relayed :
      (id : Text) (s : Service) (acc : Session)
      → Carries net st limit now (Routes.delete_blob id)
      → IsPermitted net st limit now (Routes.delete_blob id) acc s
      → perform (http_store ⦃net = net⦄ st) (Op.delete_blob id) s
        ≡ relayed st.repo_id (Op.delete_blob id) s
  unfolding http_store HttpStore.delete_blob serve_data needs_write relayed expect_success
  delete_blob-relayed id s acc c p =
      let route = Routes.delete_blob id in
      let handled =
        delete_blob_handled (sent net st limit now route none no_headers) st.repo_id now s acc id
          (auth_repo-granted net st limit now route acc s none no_headers p) in
      rw (exchange-carried net st limit now route none no_headers expect_success s c, handled) refl

  -- Where the network carries the operation's requests to the handler of its route, the store's
  -- token has a session whose role permits the route, and the sizes and versions fit, an operation
  -- of the client's HTTP store is that of the server's storage: the same answer or the client's
  -- error for the server's, and the same service afterwards.
  pub http_store-relayed :
      (op : Op) (s : Service) (acc : Session)
      → Carries net st limit now (route_of op)
      → IsPermitted net st limit now (route_of op) acc s
      → Fits net st limit now op s
      → perform (http_store ⦃net = net⦄ st) op s ≡ relayed st.repo_id op s
  http_store-relayed (Op.put_blob id content) s acc c p f =
      put_blob-relayed net st limit now id content s acc _ c p f refl
  http_store-relayed (Op.get_blob id) s acc c p f =
      get_blob-relayed net st limit now id s acc _ c p refl
  http_store-relayed (Op.has_blob id) s acc c p f = has_blob-relayed id s acc c p
  http_store-relayed (Op.delete_blob id) s acc c p f = delete_blob-relayed id s acc c p
  http_store-relayed Op.get_manifest s acc c p f =
      get_manifest-relayed net st limit now s acc _ c p f refl
  http_store-relayed Op.get_roster s acc c p f =
      get_roster-relayed net st limit now s acc _ c p f refl
  http_store-relayed Op.get_keyfile s acc c p f =
      get_keyfile-relayed net st limit now s acc _ c p refl
  http_store-relayed (Op.cas_manifest expected blob new) s acc c p (fit, small) =
      put_manifest-relayed net st limit now expected new blob s acc _ c p fit small refl
  http_store-relayed (Op.cas_roster expected blob new) s acc c p (fit, small, small') =
      put_roster-relayed net st limit now expected new blob s acc _ c p fit small small' refl
  http_store-relayed (Op.put_keyfile content) s acc c p f =
      put_keyfile-relayed net st limit now content s acc _ c p f refl
