-- ===== src/Store/HttpStore/Swapped.antt =====
-- httpstore.go and server.go together: the requests on the manifest and on the roster.
use secret_git.Prelude.{
  Text, ℕ, ◌<◌, ◌^◌, ◌≡◌, true, Option, none, some, nat_eq, text_eq, Result, length, leb,
}
use secret_git.Library.{Library}
use secret_git.Jcs.Decimal.{decimal}
use secret_git.Server.{ServerError, Db}
use secret_git.Server.Accounts.{Session}
use secret_git.Server.Repos.{role_for}
use secret_git.Server.Repos
use secret_git.Server.Http.{Service, etag_text}
use secret_git.Server.Routes
use secret_git.Server.Routes.{DataRoute, needs_write, serve_data}
use secret_git.Store.Ideal.{Op, perform}
use secret_git.Store.HttpStore.{
  Transport, HttpStore, HttpRequest, HttpResponse, Method, Headers, no_headers, request, exchange,
  http_store,
}
use secret_git.Store.HttpStore
use secret_git.Store.HttpStore.Served.{Carries, IsPermitted, relayed}
use secret_git.Store.HttpStore.{
  expect_success, expect_content, expect_presence, expect_pointer, expect_swap,
}
use secret_git.Store.HttpStore.Handled.{
  get_manifest_handled, get_roster_handled, put_manifest_handled, put_roster_handled,
}
use secret_git.Server.{Pointer}
use secret_git.Store.HttpStore.Told.{
  get_manifest_told, get_roster_told, put_manifest_told, put_roster_told,
}
use secret_git.Store.HttpStore.Relays.{
  auth_repo-granted, exchange-carried, sent, sent_body, sent_if_match, sent_new_version,
}

module _ ⦃lib : Library⦄ (net : Transport Service) (st : HttpStore) (limit now : ℕ) where
  pub get_manifest-relayed :
      (s : Service) (acc : Session) (o : Option Pointer)
      → Carries net st limit now (Routes.get_manifest)
      → IsPermitted net st limit now (Routes.get_manifest) acc s
      → ((q : Pointer) → o ≡ some q → q.version < 2 ^ 64)
      → Repos.get_manifest st.repo_id s.db ≡ o
      → perform (http_store ⦃net = net⦄ st) (Op.get_manifest) s
        ≡ relayed st.repo_id (Op.get_manifest) s
  unfolding http_store HttpStore.get_manifest serve_data expect_pointer needs_write
  get_manifest-relayed s acc o c p fits e =
      let h : Headers = no_headers in
      let r = sent net st limit now (Routes.get_manifest) (none) h in
      let handled =
        get_manifest_handled r st.repo_id now s acc o
          (auth_repo-granted net st limit now (Routes.get_manifest) acc s (none) h p) e in
      rw
        (
          exchange-carried net st limit now (Routes.get_manifest) (none) h expect_pointer s c,
          handled,
        )
        (get_manifest_told st.repo_id s o e fits)

  pub get_roster-relayed :
      (s : Service) (acc : Session) (o : Option Pointer)
      → Carries net st limit now (Routes.get_roster)
      → IsPermitted net st limit now (Routes.get_roster) acc s
      → ((q : Pointer) → o ≡ some q → q.version < 2 ^ 64)
      → Repos.get_roster st.repo_id s.db ≡ o
      → perform (http_store ⦃net = net⦄ st) (Op.get_roster) s ≡ relayed st.repo_id (Op.get_roster) s
  unfolding http_store HttpStore.get_roster serve_data expect_pointer needs_write
  get_roster-relayed s acc o c p fits e =
      let h : Headers = no_headers in
      let r = sent net st limit now (Routes.get_roster) (none) h in
      let handled =
        get_roster_handled r st.repo_id now s acc o
          (auth_repo-granted net st limit now (Routes.get_roster) acc s (none) h p) e in
      rw
        (exchange-carried net st limit now (Routes.get_roster) (none) h expect_pointer s c, handled)
        (get_roster_told st.repo_id s o e fits)

  pub put_manifest-relayed :
      (expected new : ℕ) (blob : Text) (s : Service) (acc : Session)
      (o : Result ServerError (ℕ × Db))
      → Carries net st limit now (Routes.put_manifest)
      → IsPermitted net st limit now (Routes.put_manifest) acc s
      → leb (length blob) limit ≡ true
      → expected < 2 ^ 64
      → Repos.cas_manifest st.repo_id expected blob s.db ≡ o
      → perform (http_store ⦃net = net⦄ st) (Op.cas_manifest expected blob new) s
        ≡ relayed st.repo_id (Op.cas_manifest expected blob new) s
  unfolding http_store HttpStore.cas_manifest serve_data expect_swap needs_write
  put_manifest-relayed expected new blob s acc o c p fit small e =
      let h : Headers = record { if_match = some (etag_text expected); new_version = none } in
      let r = sent net st limit now (Routes.put_manifest) (some blob) h in
      let handled =
        put_manifest_handled r st.repo_id now s acc expected blob o
          (auth_repo-granted net st limit now (Routes.put_manifest) acc s (some blob) h p)
          (sent_if_match net st limit now Routes.put_manifest (some blob) expected none small)
          (sent_body net st limit now Routes.put_manifest blob h fit) e in
      rw
        (
          exchange-carried net st limit now (Routes.put_manifest) (some blob) h expect_swap s c,
          handled,
        )
        (put_manifest_told st.repo_id s expected new blob o e)

  pub put_roster-relayed :
      (expected new : ℕ) (blob : Text) (s : Service) (acc : Session) (o : Result ServerError Db)
      → Carries net st limit now (Routes.put_roster)
      → IsPermitted net st limit now (Routes.put_roster) acc s
      → leb (length blob) limit ≡ true
      → expected < 2 ^ 64
      → new < 2 ^ 64
      → Repos.cas_roster st.repo_id expected new blob s.db ≡ o
      → perform (http_store ⦃net = net⦄ st) (Op.cas_roster expected blob new) s
        ≡ relayed st.repo_id (Op.cas_roster expected blob new) s
  unfolding http_store HttpStore.cas_roster serve_data expect_swap needs_write
  put_roster-relayed expected new blob s acc o c p fit small small' e =
      let h : Headers = record {
        if_match = some (etag_text expected);
        new_version = some (decimal new);
      } in
      let r = sent net st limit now (Routes.put_roster) (some blob) h in
      let handled =
        put_roster_handled r st.repo_id now s acc expected new blob o
          (auth_repo-granted net st limit now (Routes.put_roster) acc s (some blob) h p)
          (sent_if_match net st limit now Routes.put_roster (some blob) expected
            (some (decimal new)) small)
          (sent_new_version net st limit now Routes.put_roster (some blob) new
            (some (etag_text expected)) small')
          (sent_body net st limit now Routes.put_roster blob h fit) e in
      rw
        (
          exchange-carried net st limit now (Routes.put_roster) (some blob) h expect_swap s c,
          handled,
        )
        (put_roster_told st.repo_id s expected new blob o e)
