-- ===== src/Server/Routes/Isolation.antt =====
-- The data routes of internal/server/server.go and the repositories they are not called for.
use secret_git.Prelude.{
  Text, ℕ, ◌≡◌, ◌≢◌, text_beq_iff, refl, true, List, [], ◌∷◌, nat_eq, text_eq, option_eq, ok,
  or_err, delete_where, arith,
}
use secret_git.Library.{Library}
use secret_git.Server.{Db, File}
use secret_git.Server.Http.{Service, Request, reply, or_reply, auth_repo, parse_etag_version}
use secret_git.Server.Http.Outcomes.{Yields-ok, Yields-bind, Leaves, respond-Leaves, or_reply-eq-ok}
use secret_git.Server.Files
use secret_git.Server.Files.{
  read_file, write_file, remove_file, file_exists, keyfile_name, safe_name, is_file,
}
use secret_git.Server.Repos
use secret_git.Server.Repos.{cas_manifest, cas_roster, put_pointer, pointer}
use secret_git.Server.Repos.Swaps.{pointer-put_pointer}
use secret_git.Server.Handlers.{
  body_of, if_match_of, swap_error, handle_put_blob, handle_delete_blob, handle_put_manifest,
  handle_put_roster, handle_put_keyfile,
}
use secret_git.Server.Routes.{
  DataRoute, get_blob, head_blob, put_blob, delete_blob, get_manifest, put_manifest, get_roster,
  put_roster, get_keyfile, put_keyfile, needs_write, serve_data,
}
use secret_git.Server.Routes.Access.{serve_data_reads}

read_file-delete_other :
    (repo_id name other name' : Text) (fs : List File)
    → repo_id ≢ other
    → read_file other name' (delete_where (is_file repo_id name) fs) ≡ read_file other name' fs
unfolding read_file delete_where
read_file-delete_other repo_id name other name' [] ne = refl
read_file-delete_other repo_id name other name' (f ∷ fs) ne = ground (
  arith,
  text_beq_iff f.repo_id repo_id,
  text_beq_iff f.repo_id other,
  read_file-delete_other repo_id name other name' fs ne,
)

read_file-write_other :
    (repo_id name other name' content : Text) (fs : List File)
    → repo_id ≢ other
    → read_file other name' (write_file repo_id name content fs) ≡ read_file other name' fs
unfolding read_file write_file
read_file-write_other repo_id name other name' content fs ne =
    ground
      (arith, text_beq_iff repo_id other, read_file-delete_other repo_id name other name' fs ne)

-- What the server holds of a repository: its manifest, its roster and its files.
pub record SameRepo (other : Text) (s s' : Service) : Type 0 where
  pub manifest : Repos.get_manifest other s'.db ≡ Repos.get_manifest other s.db
  pub roster : Repos.get_roster other s'.db ≡ Repos.get_roster other s.db
  pub files : (name : Text) → read_file other name s'.files ≡ read_file other name s.files
  pub access : s'.db.repo_access ≡ s.db.repo_access
  pub accounts : s'.db.accounts ≡ s.db.accounts
  pub next_account : s'.db.next_account ≡ s.db.next_account

module _ ⦃lib : Library⦄ where
  put_blob_other :
      (repo_id hash content other name : Text) (fs fs' : List File)
      → repo_id ≢ other
      → Files.put_blob repo_id hash content fs ≡ ok fs'
      → read_file other name fs' ≡ read_file other name fs
  unfolding Files.put_blob
  put_blob_other repo_id hash content other name fs fs' ne h =
      ground (arith, read_file-write_other repo_id hash other name content fs ne)

  delete_blob_other :
      (repo_id hash other name : Text) (fs : List File)
      → repo_id ≢ other
      → read_file other name (Files.delete_blob repo_id hash fs) ≡ read_file other name fs
  unfolding Files.delete_blob remove_file
  delete_blob_other repo_id hash other name fs ne =
      ground (arith, read_file-delete_other repo_id hash other name fs ne)

  put_keyfile_other :
      (repo_id content other name : Text) (fs fs' : List File)
      → repo_id ≢ other
      → Files.put_keyfile repo_id content fs ≡ ok fs'
      → read_file other name fs' ≡ read_file other name fs
  unfolding Files.put_keyfile
  put_keyfile_other repo_id content other name fs fs' ne h =
      ground (arith, read_file-write_other repo_id keyfile_name other name content fs ne)

  cas_manifest_other :
      (repo_id other blob : Text) (v version : ℕ) (s : Service) (db : Db)
      → repo_id ≢ other
      → cas_manifest repo_id v blob s.db ≡ ok (version, db)
      → SameRepo other s (record s { db = db })
  unfolding cas_manifest Repos.get_manifest Repos.get_roster
  cas_manifest_other repo_id other blob v version s db ne h = record {
    manifest = ground (
      arith,
      pointer-put_pointer repo_id other blob version s.db.manifest_state,
      text_beq_iff repo_id other,
    );
    roster = ground arith;
    files = λ name. refl;
    access = ground arith;
    accounts = ground arith;
    next_account = ground arith;
  }

  cas_roster_other :
      (repo_id other blob : Text) (v version : ℕ) (s : Service) (db : Db)
      → repo_id ≢ other
      → cas_roster repo_id v version blob s.db ≡ ok db
      → SameRepo other s (record s { db = db })
  unfolding cas_roster Repos.get_manifest Repos.get_roster
  cas_roster_other repo_id other blob v version s db ne h = record {
    manifest = ground arith;
    roster = ground (
      arith,
      pointer-put_pointer repo_id other blob version s.db.roster_state,
      text_beq_iff repo_id other,
    );
    files = λ name. refl;
    access = ground arith;
    accounts = ground arith;
    next_account = ground arith;
  }

  SameRepo-refl : (other : Text) (s : Service) → SameRepo other s s
  SameRepo-refl other s = record {
    manifest = refl;
    roster = refl;
    files = λ name. refl;
    access = refl;
    accounts = refl;
    next_account = refl;
  }

  SameRepo-files :
      (other : Text) (s : Service) (fs : List File)
      → ((name : Text) → read_file other name fs ≡ read_file other name s.files)
      → SameRepo other s (record s { files = fs })
  SameRepo-files other s fs h = record {
    manifest = refl;
    roster = refl;
    files = h;
    access = refl;
    accounts = refl;
    next_account = refl;
  }

  -- A data route called for one repository leaves the manifest, the roster and every file of each
  -- other repository as they were, and the access table and the accounts.
  pub serve_data-SameRepo :
      (route : DataRoute) (r : Request) (repo_id other : Text) (now : ℕ) (s : Service)
      → repo_id ≢ other
      → Leaves (SameRepo other s) (serve_data route r repo_id now s)
  unfolding serve_data handle_put_blob handle_delete_blob handle_put_manifest handle_put_roster
      handle_put_keyfile needs_write
  serve_data-SameRepo (put_blob hash) r repo_id other now s ne =
      respond-Leaves s (SameRepo-refl other s) (
        Yields-bind (auth_repo r repo_id true now s) λ _ _. Yields-bind (body_of r) λ content _.
          Yields-bind (or_reply (Files.put_blob repo_id hash content s.files) _) λ fs e.
            Yields-ok _ (
              SameRepo-files other s fs (λ name.
                put_blob_other repo_id hash content other name s.files fs ne
                  (or_reply-eq-ok _ _ e))))
  serve_data-SameRepo (delete_blob hash) r repo_id other now s ne =
      respond-Leaves s (SameRepo-refl other s) (
        Yields-bind (auth_repo r repo_id true now s) λ _ _.
          Yields-ok _ (
            SameRepo-files other s _
              (λ name. delete_blob_other repo_id hash other name s.files ne)))
  serve_data-SameRepo put_manifest r repo_id other now s ne =
      respond-Leaves s (SameRepo-refl other s) (
        Yields-bind (auth_repo r repo_id true now s) λ _ _. Yields-bind (if_match_of r) λ v _.
          Yields-bind (body_of r) λ blob _.
            Yields-bind (or_reply (cas_manifest repo_id v blob s.db) swap_error) λ (version, db) e.
              Yields-ok _
                (cas_manifest_other repo_id other blob v version s db ne (or_reply-eq-ok _ _ e)))
  serve_data-SameRepo put_roster r repo_id other now s ne =
      respond-Leaves s (SameRepo-refl other s) (
        Yields-bind (auth_repo r repo_id true now s) λ _ _. Yields-bind (if_match_of r) λ v _.
          Yields-bind (or_err (parse_etag_version r.new_version) (reply 400)) λ v' _.
            Yields-bind (body_of r) λ blob _.
              Yields-bind (or_reply (cas_roster repo_id v v' blob s.db) swap_error) λ db e.
                Yields-ok _
                  (cas_roster_other repo_id other blob v v' s db ne (or_reply-eq-ok _ _ e)))
  serve_data-SameRepo put_keyfile r repo_id other now s ne =
      respond-Leaves s (SameRepo-refl other s) (
        Yields-bind (auth_repo r repo_id true now s) λ _ _. Yields-bind (body_of r) λ content _.
          Yields-bind (or_reply (Files.put_keyfile repo_id content s.files) _) λ fs e. Yields-ok _ (
            SameRepo-files other s fs (λ name.
              put_keyfile_other repo_id content other name s.files fs ne (or_reply-eq-ok _ _ e))))
  serve_data-SameRepo (get_blob hash) r repo_id other now s ne = record {
    after = rw (serve_data_reads (get_blob hash) r repo_id now s refl) (SameRepo-refl other s);
  }
  serve_data-SameRepo (head_blob hash) r repo_id other now s ne = record {
    after = rw (serve_data_reads (head_blob hash) r repo_id now s refl) (SameRepo-refl other s);
  }
  serve_data-SameRepo get_manifest r repo_id other now s ne = record {
    after = rw (serve_data_reads get_manifest r repo_id now s refl) (SameRepo-refl other s);
  }
  serve_data-SameRepo get_roster r repo_id other now s ne = record {
    after = rw (serve_data_reads get_roster r repo_id now s refl) (SameRepo-refl other s);
  }
  serve_data-SameRepo get_keyfile r repo_id other now s ne = record {
    after = rw (serve_data_reads get_keyfile r repo_id now s refl) (SameRepo-refl other s);
  }
