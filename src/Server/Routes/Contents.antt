-- ===== src/Server/Routes/Contents.antt =====
-- The data routes of internal/server/server.go and the contents of the files.
use secret_git.Prelude.{
  Text, ℕ, ◌≡◌, ◌≢◌, ◌⊎◌, text_beq_iff, refl, Bool, true, false, some, List, [], ◌∷◌, nat_eq,
  text_eq, option_eq, Result, ok, err, or_err, delete_where, arith,
}
use secret_git.Library.{Library}
use secret_git.Prelude.{Bool-cases, inl, inr, All}
use secret_git.Hex.{sha256_hex}
use secret_git.Server.{File}
use secret_git.Server.Http.{
  Service, Request, Response, reply, respond, or_reply, auth_repo, authenticated,
  parse_etag_version,
}
use secret_git.Server.Http.Outcomes.{Yields-ok, Yields-bind, Leaves, respond-Leaves, or_reply-eq-ok}
use secret_git.Server.Accounts.{Session}
use secret_git.Server.Files
use secret_git.Server.Files.{
  read_file, write_file, remove_file, file_exists, keyfile_name, safe_name, is_file,
}
use secret_git.Server.Repos.{cas_manifest, cas_roster}
use secret_git.Server.Handlers.{
  body_of, if_match_of, swap_error, handle_get_blob, handle_put_blob, handle_delete_blob,
  handle_put_manifest, handle_put_roster, handle_put_keyfile,
}
use secret_git.Server.Routes.{
  DataRoute, get_blob, head_blob, put_blob, delete_blob, get_manifest, put_manifest, get_roster,
  put_roster, get_keyfile, put_keyfile, needs_write, serve_data,
}
use secret_git.Server.Routes.Access.{serve_data_reads}

module _ ⦃lib : Library⦄ where
  -- A file holds what its name is the hash of, unless it is the keyfile.
  abbrev pub IsNamed : File → Type 0
  IsNamed f = (f.name ≡ keyfile_name) ⊎ (sha256_hex f.content ≡ f.name)

  delete-IsNamed :
      (p : File → Bool) (fs : List File) → All IsNamed fs → All IsNamed (delete_where p fs)
  unfolding delete_where
  delete-IsNamed p [] h = tt
  delete-IsNamed p (f ∷ fs) h = elim (Bool-cases (p f)) [
    | inl t ↦ rw t (delete-IsNamed p fs h.1)
    | inr u ↦ rw u (h.0, delete-IsNamed p fs h.1)
  ]

  put_blob-IsNamed :
      (repo_id hash content : Text) (fs fs' : List File)
      → Files.put_blob repo_id hash content fs ≡ ok fs'
      → All IsNamed fs
      → All IsNamed fs'
  unfolding Files.put_blob write_file
  put_blob-IsNamed repo_id hash content fs fs' h named = ground (
    arith,
    text_beq_iff (sha256_hex content) hash,
    delete-IsNamed (is_file repo_id hash) fs named,
  )

  delete_blob-IsNamed :
      (repo_id hash : Text) (fs : List File)
      → All IsNamed fs
      → All IsNamed (Files.delete_blob repo_id hash fs)
  unfolding Files.delete_blob remove_file
  delete_blob-IsNamed repo_id hash fs h = ground (arith, delete-IsNamed (is_file repo_id hash) fs h)

  put_keyfile-IsNamed :
      (repo_id content : Text) (fs fs' : List File)
      → Files.put_keyfile repo_id content fs ≡ ok fs'
      → All IsNamed fs
      → All IsNamed fs'
  unfolding Files.put_keyfile write_file
  put_keyfile-IsNamed repo_id content fs fs' h named =
      ground (arith, delete-IsNamed (is_file repo_id keyfile_name) fs named)

  read_file-IsNamed :
      (repo_id name content : Text) (fs : List File)
      → All IsNamed fs
      → read_file repo_id name fs ≡ some content
      → (name ≡ keyfile_name) ⊎ (sha256_hex content ≡ name)
  unfolding read_file
  read_file-IsNamed repo_id name content [] named h = cc
  read_file-IsNamed repo_id name content (f ∷ fs) named h =
      elim (Bool-cases (is_file repo_id name f)) [
        | inl t ↦ ground (arith, text_beq_iff f.name name, named.0)
        | inr u ↦ read_file-IsNamed repo_id name content fs named.1 (rw u at h)
      ]

  -- What is stored under a name other than the keyfile's has that name as its hash, through every
  -- data route.
  pub serve_data-IsNamed :
      (route : DataRoute) (r : Request) (repo_id : Text) (now : ℕ) (s : Service)
      → All IsNamed s.files
      → Leaves (λ s'. All IsNamed s'.files) (serve_data route r repo_id now s)
  unfolding serve_data handle_put_blob handle_delete_blob handle_put_manifest handle_put_roster
      handle_put_keyfile needs_write Files.delete_blob Files.put_keyfile remove_file write_file
  serve_data-IsNamed (put_blob hash) r repo_id now s h = respond-Leaves s h (
      Yields-bind (auth_repo r repo_id true now s) λ _ _. Yields-bind (body_of r) λ content _.
        Yields-bind (or_reply (Files.put_blob repo_id hash content s.files) _) λ fs e.
          Yields-ok _ (put_blob-IsNamed repo_id hash content s.files fs (or_reply-eq-ok _ _ e) h))
  serve_data-IsNamed (delete_blob hash) r repo_id now s h = respond-Leaves s h (
      Yields-bind (auth_repo r repo_id true now s)
        λ _ _. Yields-ok _ (delete_blob-IsNamed repo_id hash s.files h))
  serve_data-IsNamed put_manifest r repo_id now s h = respond-Leaves s h (
      Yields-bind (auth_repo r repo_id true now s) λ _ _. Yields-bind (if_match_of r) λ v _.
        Yields-bind (body_of r) λ blob _.
          Yields-bind (or_reply (cas_manifest repo_id v blob s.db) swap_error) λ _ _. Yields-ok _ h)
  serve_data-IsNamed put_roster r repo_id now s h = respond-Leaves s h (
      Yields-bind (auth_repo r repo_id true now s) λ _ _. Yields-bind (if_match_of r) λ v _.
        Yields-bind (or_err (parse_etag_version r.new_version) (reply 400)) λ v' _.
          Yields-bind (body_of r) λ blob _.
            Yields-bind (or_reply (cas_roster repo_id v v' blob s.db) swap_error)
              λ _ _. Yields-ok _ h)
  serve_data-IsNamed put_keyfile r repo_id now s h = respond-Leaves s h (
      Yields-bind (auth_repo r repo_id true now s) λ _ _. Yields-bind (body_of r) λ content _.
        Yields-bind (or_reply (Files.put_keyfile repo_id content s.files) _) λ fs e.
          Yields-ok _ (put_keyfile-IsNamed repo_id content s.files fs (or_reply-eq-ok _ _ e) h))
  serve_data-IsNamed (get_blob hash) r repo_id now s h = record {
    after = rw (serve_data_reads (get_blob hash) r repo_id now s refl) h;
  }
  serve_data-IsNamed (head_blob hash) r repo_id now s h = record {
    after = rw (serve_data_reads (head_blob hash) r repo_id now s refl) h;
  }
  serve_data-IsNamed get_manifest r repo_id now s h = record {
    after = rw (serve_data_reads get_manifest r repo_id now s refl) h;
  }
  serve_data-IsNamed get_roster r repo_id now s h = record {
    after = rw (serve_data_reads get_roster r repo_id now s refl) h;
  }
  serve_data-IsNamed get_keyfile r repo_id now s h = record {
    after = rw (serve_data_reads get_keyfile r repo_id now s refl) h;
  }

  get_blob-IsNamed :
      (repo_id hash content : Text) (fs : List File)
      → All IsNamed fs
      → hash ≢ keyfile_name
      → Files.get_blob repo_id hash fs ≡ ok content
      → sha256_hex content ≡ hash
  unfolding Files.get_blob
  get_blob-IsNamed repo_id hash content fs h ne e =
      elim (read_file-IsNamed repo_id hash content fs h (ground (arith, e))) [
        | inl k ↦ absurd (ne k)
        | inr n ↦ n
      ]

  auth_refuses :
      (r : Request) (repo_id : Text) (now : ℕ) (s : Service) (x : Response)
      → auth_repo r repo_id false now s ≡ err x
      → x.status ≢ 200
  unfolding auth_repo authenticated
  auth_refuses r repo_id now s x e = ground arith

  answered :
      (r : Request) (repo_id hash : Text) (now : ℕ) (s : Service) (auth : Result Response Session)
      → auth_repo r repo_id false now s ≡ auth
      → (serve_data (get_blob hash) r repo_id now s).0.status ≡ 200
      → Files.get_blob repo_id hash s.files
        ≡ ok (serve_data (get_blob hash) r repo_id now s).0.content
  unfolding serve_data handle_get_blob respond
  answered r repo_id hash now s (ok acc) a e = ground (arith, a)
  answered r repo_id hash now s (err x) a e = absurd (auth_refuses r repo_id now s x a (rw a at e))

  -- Where all files but keyfiles hold what their names are the hashes of, GET of a blob other than
  -- the keyfile that is answered with 200 returns content whose hash is the name asked for.
  pub served-IsNamed :
      (r : Request) (repo_id hash : Text) (now : ℕ) (s : Service)
      → All IsNamed s.files
      → hash ≢ keyfile_name
      → (serve_data (get_blob hash) r repo_id now s).0.status ≡ 200
      → sha256_hex (serve_data (get_blob hash) r repo_id now s).0.content ≡ hash
  served-IsNamed r repo_id hash now s h ne e =
      get_blob-IsNamed repo_id hash _ s.files h ne (answered r repo_id hash now s _ refl e)
