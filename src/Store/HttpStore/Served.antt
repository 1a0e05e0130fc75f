-- ===== src/Store/HttpStore/Served.antt =====
-- The client's HTTP store and the server's handlers together: a request of httpstore.go that the
-- network carries to the handler of its route.
use secret_git.Prelude.{
  Text, codes, ℕ, ◌<◌, ◌^◌, ◌≡◌, true, false, Option, none, some, [], ◌++◌, if◌then◌else◌, ◌==◌,
  nat_eq, text_eq, Result, ok, err, length, leb,
}
use secret_git.Library.{Library}
use secret_git.Errors.{Error, not_found, version_conflict, store_failed}
use secret_git.Server.{ServerError, conflict}
use secret_git.Server.Accounts.{Session, authenticate}
use secret_git.Server.Repos.{role_for}
use secret_git.Server.Repos
use secret_git.Server.Files
use secret_git.Server.Http.{Service, Request, Response, permits, etag_text}
use secret_git.Server.Routes
use secret_git.Server.Routes.{DataRoute, needs_write, serve_data}
use secret_git.Split.{trim_space}
use secret_git.Store.Ideal.{Op, Answer, done, bytes, present, pointer}
use secret_git.Store.HttpStore.{
  Transport, HttpStore, HttpRequest, HttpResponse, Method, Headers, request,
}

-- A response of the server as the client sees it.
abbrev pub etag_header : Option ℕ → Text
etag_header none = []
etag_header (some v) = etag_text v

abbrev pub rendered : Response → HttpResponse
rendered r = record { status = r.status; etag = etag_header r.etag; body = some r.content }

abbrev header : Option Text → Text
header none = []
header (some t) = t

-- http.MaxBytesReader
abbrev pub limited : ℕ → Text → Option Text
limited limit body = if leb (length body) limit then some body else none

-- A request of the client as the handler sees it, under the limit of bodies.
abbrev pub received : ℕ → HttpRequest → Request
received limit q = record {
  authorization = header q.authorization;
  if_match = header q.if_match;
  new_version = header q.new_version;
  body = limited limit (header q.body);
}

-- The route that net/http picks for the request of an operation.
abbrev pub route_of : Op → DataRoute
route_of (Op.put_blob id content) = Routes.put_blob id
route_of (Op.get_blob id) = Routes.get_blob id
route_of (Op.has_blob id) = Routes.head_blob id
route_of (Op.delete_blob id) = Routes.delete_blob id
route_of Op.get_manifest = Routes.get_manifest
route_of Op.get_roster = Routes.get_roster
route_of Op.get_keyfile = Routes.get_keyfile
route_of (Op.cas_manifest expected blob new) = Routes.put_manifest
route_of (Op.cas_roster expected blob new) = Routes.put_roster
route_of (Op.put_keyfile content) = Routes.put_keyfile

-- The method and the suffix of a route.
abbrev pub method_of : DataRoute → Method
method_of (Routes.get_blob id) = Method.get
method_of (Routes.head_blob id) = Method.head
method_of (Routes.put_blob id) = Method.put
method_of (Routes.delete_blob id) = Method.delete
method_of Routes.get_manifest = Method.get
method_of Routes.put_manifest = Method.put
method_of Routes.get_roster = Method.get
method_of Routes.put_roster = Method.put
method_of Routes.get_keyfile = Method.get
method_of Routes.put_keyfile = Method.put

abbrev pub suffix_of : DataRoute → Text
suffix_of (Routes.get_blob id) = codes "/blobs/" ++ id
suffix_of (Routes.head_blob id) = codes "/blobs/" ++ id
suffix_of (Routes.put_blob id) = codes "/blobs/" ++ id
suffix_of (Routes.delete_blob id) = codes "/blobs/" ++ id
suffix_of Routes.get_manifest = codes "/manifest"
suffix_of Routes.put_manifest = codes "/manifest"
suffix_of Routes.get_roster = codes "/roster"
suffix_of Routes.put_roster = codes "/roster"
suffix_of Routes.get_keyfile = codes "/keyfile"
suffix_of Routes.put_keyfile = codes "/keyfile"

module _ ⦃lib : Library⦄ (net : Transport Service) (st : HttpStore) (limit now : ℕ) where
  -- The network carries the requests of a route to its handler and the responses back.
  pub record Carries (route : DataRoute) : Type 0 where
    pub accepted :
        (body : Option Text) (h : Headers)
        → net.accepts (request st (method_of route) (suffix_of route) body h) ≡ true
    pub carried :
        (body : Option Text) (h : Headers) (s : Service)
        → net.send (request st (method_of route) (suffix_of route) body h) s ≡ (
            let (r, s') =
              serve_data route
                (received limit (request st (method_of route) (suffix_of route) body h))
                st.repo_id
                now
                s in
            (some (rendered r), s'))

  -- The session that the server finds for the store's token, where its role permits the route.
  pub record IsPermitted (route : DataRoute) (acc : Session) (s : Service) : Type 0 where
    pub token_set : (st.token == []) ≡ false
    pub session : authenticate (trim_space st.token) now s.db ≡ ok acc
    pub permitted : permits (role_for acc.id st.repo_id s.db) (needs_write route) ≡ true

  -- The sizes and the numbers that the operation sends and receives fit.
  abbrev pub Fits : Op → Service → Type 0
  Fits (Op.put_blob id content) s = leb (length content) limit ≡ true
  Fits (Op.put_keyfile content) s = leb (length content) limit ≡ true
  Fits (Op.cas_manifest expected blob new) s =
      (leb (length blob) limit ≡ true) × (expected < 2 ^ 64)
  Fits (Op.cas_roster expected blob new) s =
      (leb (length blob) limit ≡ true) × (expected < 2 ^ 64) × (new < 2 ^ 64)
  Fits Op.get_manifest s =
      (p : secret_git.Server.Pointer)
      → Repos.get_manifest st.repo_id s.db ≡ some p
      → p.version < 2 ^ 64
  Fits Op.get_roster s =
      (p : secret_git.Server.Pointer)
      → Repos.get_roster st.repo_id s.db ≡ some p
      → p.version < 2 ^ 64
  Fits _ s = Unit

module _ ⦃lib : Library⦄ (repo_id : Text) where
  -- What the storage of the server makes of an operation, as the interface of the client says it.
  unfoldable pub relayed : Op → Service → Result Error Answer × Service
  relayed (Op.put_blob id content) s = elim (Files.put_blob repo_id id content s.files) [
    | ok files ↦ (ok done, record s { files = files })
    | err _ ↦ (err store_failed, s)
  ]
  relayed (Op.get_blob id) s = elim (Files.get_blob repo_id id s.files) [
    | ok content ↦ (ok (bytes content), s)
    | err _ ↦ (err not_found, s)
  ]
  relayed (Op.has_blob id) s = (ok (present (Files.has_blob repo_id id s.files)), s)
  relayed (Op.delete_blob id) s =
      (ok done, record s { files = Files.delete_blob repo_id id s.files })
  relayed Op.get_manifest s = elim (Repos.get_manifest repo_id s.db) [
    | none ↦ (ok (pointer (none, 0)), s)
    | some p ↦ (ok (pointer (some p.blob, p.version)), s)
  ]
  relayed Op.get_roster s = elim (Repos.get_roster repo_id s.db) [
    | none ↦ (ok (pointer (none, 0)), s)
    | some p ↦ (ok (pointer (some p.blob, p.version)), s)
  ]
  relayed Op.get_keyfile s = elim (Files.get_keyfile repo_id s.files) [
    | ok content ↦ (ok (bytes content), s)
    | err _ ↦ (err not_found, s)
  ]
  relayed (Op.cas_manifest expected blob new) s =
      elim (Repos.cas_manifest repo_id expected blob s.db) [
        | ok (version, db) ↦ (ok done, record s { db = db })
        | err conflict ↦ (err version_conflict, s)
        | err _ ↦ (err store_failed, s)
      ]
  relayed (Op.cas_roster expected blob new) s =
      elim (Repos.cas_roster repo_id expected new blob s.db) [
        | ok db ↦ (ok done, record s { db = db })
        | err conflict ↦ (err version_conflict, s)
        | err _ ↦ (err store_failed, s)
      ]
  relayed (Op.put_keyfile content) s = elim (Files.put_keyfile repo_id content s.files) [
    | ok files ↦ (ok done, record s { files = files })
    | err _ ↦ (err store_failed, s)
  ]
