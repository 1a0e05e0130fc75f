-- ===== src/Store/HttpStore.antt =====
-- internal/store/httpstore/httpstore.go: the store behind a server. net/http's client is a
-- parameter: a request goes out, and a response or an error comes back.
pub mod Served
pub mod Handled
pub mod Told
pub mod Relays
pub mod Swapped
pub mod Relayed
mod Examples
use secret_git.Prelude.{
  Text, codes, ℕ, ◌/◌, Bool, true, false, Option, none, some, [], ◌∷◌, ◌++◌, if◌then◌else◌, ◌==◌,
  nat_eq, text_eq, Result, ok, err, or_err, guard, not,
}
use mathlib.Core.List.{reverse}
use secret_git.Errors.{Error, not_found, version_conflict, store_failed}
use secret_git.Exec.{Exec}
use secret_git.Jcs.Decimal.{decimal}
use secret_git.Server.Http.{etag_text, parse_etag_version}
use secret_git.Store.{Store}

pub data Method : Type 0 where
  get head put delete post : Method

-- A request as do builds it: a header is `none` where it is not set, a body `none` where it is nil.
pub record HttpRequest : Type 0 where
  pub method : Method
  pub url : Text
  pub authorization : Option Text
  pub content_type : Option Text
  pub if_match : Option Text
  pub new_version : Option Text
  pub body : Option Text

-- A response: its ETag is empty where the header is missing, its body `none` where it cannot be
-- read.
pub record HttpResponse : Type 0 where
  pub status : ℕ
  pub etag : Text
  pub body : Option Text

pub record Transport (N : Type 0) : Type 0 where
  -- http.NewRequest accepts the method and the url.
  pub accepts : HttpRequest → Bool
  -- http.Client.Do
  pub send : HttpRequest → N → Option HttpResponse × N

-- Store: the repository's place and the token.
pub record HttpStore : Type 0 where
  pub base : Text
  pub repo_id : Text
  pub token : Text

unfoldable pub trim_slashes : Text → Text
trim_slashes [] = []
trim_slashes (c ∷ cs) = if c == 47 then trim_slashes cs else c ∷ cs

-- New, of a client that is given.
unfoldable pub new_http_store : Text → Text → Text → Result Error HttpStore
unfolding trim_slashes
new_http_store base_url repo_id token =
    if base_url == []
    then err store_failed
    else ok (record {
      base = reverse (trim_slashes (reverse base_url));
      repo_id = repo_id;
      token = token;
    })

unfoldable pub url : HttpStore → Text → Text
url st suffix = st.base ++ (codes "/repos/" ++ (st.repo_id ++ suffix))

-- The headers that the swaps set.
pub record Headers : Type 0 where
  pub if_match : Option Text
  pub new_version : Option Text

abbrev pub no_headers : Headers
no_headers = record { if_match = none; new_version = none }

-- The request of do.
unfoldable pub request : HttpStore → Method → Text → Option Text → Headers → HttpRequest
unfolding url
request st method suffix body h = record {
  method = method;
  url = url st suffix;
  authorization = if st.token == [] then none else some (codes "Bearer " ++ st.token);
  content_type = elim body [ none ↦ none | some _ ↦ some (codes "application/octet-stream") ];
  if_match = h.if_match;
  new_version = h.new_version;
  body = body;
}

-- resp.StatusCode/100 == 2
abbrev pub is_success : HttpResponse → Bool
is_success r = r.status / 100 == 2

-- What PutBlob, DeleteBlob and PutKeyfile make of a response.
unfoldable pub expect_success : HttpResponse → Result Error (Unit {0})
expect_success r = guard (is_success r) store_failed

-- What GetBlob and GetKeyfile make of a response.
unfoldable pub expect_content : HttpResponse → Result Error Text
expect_content r =
    if r.status == 404
    then err not_found
    else if is_success r
    then or_err r.body store_failed
    else err store_failed

-- What HasBlob makes of a response.
unfoldable pub expect_presence : HttpResponse → Result Error Bool
expect_presence r =
    if r.status == 200 then ok true else if r.status == 404 then ok false else err store_failed

abbrev pub with_version : Option Text → Option ℕ → Result Error (Option Text × ℕ)
with_version (some blob) (some v) = ok (some blob, v)
with_version (some blob) none = err store_failed
with_version none v = err store_failed

-- What getPointer makes of a response.
unfoldable pub expect_pointer : HttpResponse → Result Error (Option Text × ℕ)
unfolding parse_etag_version
expect_pointer r =
    if r.status == 404
    then ok (none, 0)
    else if is_success r
    then with_version r.body (parse_etag_version r.etag)
    else err store_failed

-- What casPointer makes of a response.
unfoldable pub expect_swap : HttpResponse → Result Error (Unit {0})
unfolding expect_success
expect_swap r = if r.status == 412 then err version_conflict else expect_success r

abbrev pub responded :
    {A : Type 0} → (HttpResponse → Result Error A) → Option HttpResponse → Result Error A
responded f none = err store_failed
responded f (some r) = f r

module _ {N : Type 0} ⦃net : Transport N⦄ where
  -- do, and what follows it.
  unfoldable pub exchange : {A : Type 0} → HttpRequest → (HttpResponse → Result Error A) → Exec N A
  exchange q f s =
      let (r, s') = net.send q s in
      if net.accepts q then (responded f r, s') else (err store_failed, s)

  module _ (st : HttpStore) where
    unfoldable pub put_blob : Text → Text → Exec N (Unit {0})
    unfolding exchange request expect_success
    put_blob id content =
        exchange (request st put (codes "/blobs/" ++ id) (some content) no_headers) expect_success

    unfoldable pub get_blob : Text → Exec N Text
    unfolding exchange request expect_content
    get_blob id = exchange (request st get (codes "/blobs/" ++ id) none no_headers) expect_content

    unfoldable pub has_blob : Text → Exec N Bool
    unfolding exchange request expect_presence
    has_blob id = exchange (request st head (codes "/blobs/" ++ id) none no_headers) expect_presence

    unfoldable pub delete_blob : Text → Exec N (Unit {0})
    unfolding exchange request expect_success
    delete_blob id =
        exchange (request st delete (codes "/blobs/" ++ id) none no_headers) expect_success

    unfoldable pub get_manifest : Exec N (Option Text × ℕ)
    unfolding exchange request expect_pointer
    get_manifest = exchange (request st get (codes "/manifest") none no_headers) expect_pointer

    -- The new version is not sent: the server counts.
    unfoldable pub cas_manifest : ℕ → Text → ℕ → Exec N (Unit {0})
    unfolding exchange request expect_swap etag_text
    cas_manifest expected blob new =
        exchange
          (request st put (codes "/manifest") (some blob)
            (record { if_match = some (etag_text expected); new_version = none }))
          expect_swap

    unfoldable pub get_roster : Exec N (Option Text × ℕ)
    unfolding exchange request expect_pointer
    get_roster = exchange (request st get (codes "/roster") none no_headers) expect_pointer

    unfoldable pub cas_roster : ℕ → Text → ℕ → Exec N (Unit {0})
    unfolding exchange request expect_swap etag_text decimal
    cas_roster expected blob new =
        exchange
          (request st put (codes "/roster") (some blob)
            (record { if_match = some (etag_text expected); new_version = some (decimal new) }))
          expect_swap

    unfoldable pub put_keyfile : Text → Exec N (Unit {0})
    unfolding exchange request expect_success
    put_keyfile content =
        exchange (request st put (codes "/keyfile") (some content) no_headers) expect_success

    unfoldable pub get_keyfile : Exec N Text
    unfolding exchange request expect_content
    get_keyfile = exchange (request st get (codes "/keyfile") none no_headers) expect_content

    unfoldable pub http_store : Store N
    http_store = record {
      put_blob = put_blob;
      get_blob = get_blob;
      has_blob = has_blob;
      delete_blob = delete_blob;
      get_manifest = get_manifest;
      cas_manifest = cas_manifest;
      get_roster = get_roster;
      cas_roster = cas_roster;
      put_keyfile = put_keyfile;
      get_keyfile = get_keyfile;
    }
