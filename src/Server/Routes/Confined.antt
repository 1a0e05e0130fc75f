-- ===== src/Server/Routes/Confined.antt =====
-- Which files of internal/server/storage.go a data route of server.go reaches. Files stand under
-- the names of the two components below blobDir; filepath.Join keeps these as they are where they
-- are plain.
use secret_git.Prelude.{
  Text, ℕ, ◌≡◌, ◌≢◌, ◌⊎◌, refl, sym, subst, Bool, true, false, ◌&&◌, List, [], ◌∷◌, ◌==◌, nat_eq,
  text_eq, option_eq, ok, or_err, inl, inr, delete_where, Bool-cases, text_beq_iff, text_beq, arith,
}
use secret_git.Library.{Library}
use secret_git.Hex.{sha256_hex}
use secret_git.Store.Disk.{IsPlain, is_plain, has_separator}
use secret_git.Server.{File}
use secret_git.Server.Http.{Service, Request, reply, or_reply, auth_repo, parse_etag_version}
use secret_git.Server.Http.Outcomes.{Yields-ok, Yields-bind, Leaves, respond-Leaves, or_reply-eq-ok}
use secret_git.Server.Files
use secret_git.Server.Files.{
  read_file, write_file, remove_file, file_exists, keyfile_name, safe_name, has_path_char, is_file,
}
use secret_git.Server.Repos.{cas_manifest, cas_roster}
use secret_git.Server.Handlers.{
  body_of, if_match_of, swap_error, handle_put_blob, handle_delete_blob, handle_put_manifest,
  handle_put_roster, handle_put_keyfile,
}
use secret_git.Server.Routes.{
  DataRoute, get_blob, head_blob, put_blob, delete_blob, get_manifest, put_manifest, get_roster,
  put_roster, get_keyfile, put_keyfile, needs_write, serve_data,
}
use secret_git.Server.Routes.Access.{serve_data_reads}
use secret_git.Server.Routes.Isolation.{SameRepo, serve_data-SameRepo}

-- A file below blobDir is as before, or it is in the folder of the repository and both components
-- of its path are plain.
abbrev pub IsKeptOrPlain : Text → List File → List File → Text → Text → Type 0
IsKeptOrPlain repo_id fs fs' folder name =
    (read_file folder name fs' ≡ read_file folder name fs)
    ⊎ ((folder ≡ repo_id) × IsPlain folder × IsPlain name)

-- What a call for one repository may change.
pub record IsConfined (repo_id : Text) (s s' : Service) : Type 0 where
  pub others : (other : Text) → repo_id ≢ other → SameRepo other s s'
  pub files : (folder name : Text) → IsKeptOrPlain repo_id s.files s'.files folder name

has_separator-le : (n : Text) → has_path_char n ≡ false → has_separator n ≡ false
unfolding has_path_char has_separator
has_separator-le [] h = refl
has_separator-le (c ∷ cs) h = ground (arith, has_separator-le cs)

-- A name that safeName accepts is kept by filepath.Join.
safe_name-IsPlain : (n : Text) → safe_name n ≡ true → IsPlain n
unfolding safe_name has_path_char is_plain text_beq
safe_name-IsPlain [] h = cc
safe_name-IsPlain (c ∷ cs) h = ground (arith, has_separator-le (c ∷ cs))

abbrev is_place : Text → Text → Text → Text → Bool
is_place repo_id name folder name' = repo_id == folder && name == name'

read_file-delete_ne :
    (repo_id name folder name' : Text) (fs : List File)
    → is_place repo_id name folder name' ≡ false
    → read_file folder name' (delete_where (is_file repo_id name) fs) ≡ read_file folder name' fs
unfolding read_file delete_where
read_file-delete_ne repo_id name folder name' [] ne = refl
read_file-delete_ne repo_id name folder name' (f ∷ fs) ne = ground (
  arith,
  text_beq_iff f.repo_id repo_id,
  text_beq_iff f.repo_id folder,
  text_beq_iff repo_id folder,
  text_beq_iff f.name name,
  text_beq_iff f.name name',
  text_beq_iff name name',
  read_file-delete_ne repo_id name folder name' fs ne,
)

place-IsKeptOrPlain :
    (repo_id name folder name' : Text) (fs fs' : List File)
    → IsPlain repo_id
    → IsPlain name
    → (is_place repo_id name folder name' ≡ false
        → read_file folder name' fs' ≡ read_file folder name' fs)
    → IsKeptOrPlain repo_id fs fs' folder name'
place-IsKeptOrPlain repo_id name folder name' fs fs' p q same =
    elim (Bool-cases (repo_id == folder)) [
      | inr f ↦ inl (same (rw f refl))
      | inl t ↦ elim (Bool-cases (name == name')) [
        | inr f ↦ inl (same (rw (t, f) refl))
        | inl t' ↦
            let e = (text_beq_iff repo_id folder).0 t in
            let e' = (text_beq_iff name name').0 t' in
            inr (sym e, subst (λ x. IsPlain x) e p, subst (λ x. IsPlain x) e' q)
      ]
    ]

remove_file-IsKeptOrPlain :
    (repo_id name folder name' : Text) (fs : List File)
    → IsPlain repo_id
    → IsPlain name
    → IsKeptOrPlain repo_id fs (remove_file repo_id name fs) folder name'
unfolding remove_file
remove_file-IsKeptOrPlain repo_id name folder name' fs p q =
    place-IsKeptOrPlain repo_id name folder name' fs _ p q
      (read_file-delete_ne repo_id name folder name' fs)

write_file-IsKeptOrPlain :
    (repo_id name content folder name' : Text) (fs : List File)
    → IsPlain repo_id
    → IsPlain name
    → IsKeptOrPlain repo_id fs (write_file repo_id name content fs) folder name'
unfolding write_file read_file
write_file-IsKeptOrPlain repo_id name content folder name' fs p q =
    place-IsKeptOrPlain repo_id name folder name' fs (write_file repo_id name content fs) p q
      (λ ne. ground (arith, read_file-delete_ne repo_id name folder name' fs ne))

module _ ⦃lib : Library⦄ where
  delete_blob-IsKeptOrPlain :
      (repo_id hash folder name : Text) (fs : List File)
      → IsKeptOrPlain repo_id fs (Files.delete_blob repo_id hash fs) folder name
  unfolding Files.delete_blob
  delete_blob-IsKeptOrPlain repo_id hash folder name fs = elim (Bool-cases (safe_name repo_id)) [
    | inr f ↦ rw f (inl refl)
    | inl t ↦ elim (Bool-cases (safe_name hash)) [
      | inr f ↦ rw (t, f) (inl refl)
      | inl t' ↦
          rw (t, t')
            (remove_file-IsKeptOrPlain repo_id hash folder name fs (safe_name-IsPlain repo_id t)
              (safe_name-IsPlain hash t'))
    ]
  ]

  put_blob-safe :
      (repo_id hash content : Text) (fs fs' : List File)
      → Files.put_blob repo_id hash content fs ≡ ok fs'
      → (safe_name repo_id ≡ true)
        × (safe_name hash ≡ true)
        × ((fs' ≡ fs) ⊎ (fs' ≡ write_file repo_id hash content fs))
  unfolding Files.put_blob
  put_blob-safe repo_id hash content fs fs' h = elim (Bool-cases (safe_name repo_id)) [
    | inr f ↦ cc (rw f at h)
    | inl t ↦ elim (Bool-cases (safe_name hash)) [
      | inr f ↦ cc (rw (t, f) at h)
      | inl t' ↦ elim (Bool-cases (sha256_hex content == hash)) [
        | inr f ↦ cc (rw (t, t', f) at h)
        | inl t'' ↦ elim (Bool-cases (file_exists repo_id hash fs)) [
          | inl x ↦ let e : fs ≡ fs' = cc (rw (t, t', t'', x) at h) in (t, t', inl (sym e))
          | inr x ↦
              let e : write_file repo_id hash content fs ≡ fs' = cc (rw (t, t', t'', x) at h) in
              (t, t', inr (sym e))
        ]
      ]
    ]
  ]

  put_blob-IsKeptOrPlain :
      (repo_id hash content folder name : Text) (fs fs' : List File)
      → Files.put_blob repo_id hash content fs ≡ ok fs'
      → IsKeptOrPlain repo_id fs fs' folder name
  put_blob-IsKeptOrPlain repo_id hash content folder name fs fs' h =
      let (t, t', changed) = put_blob-safe repo_id hash content fs fs' h in
      elim changed [
        | inl e ↦ rw e (inl refl)
        | inr e ↦ rw e (
            write_file-IsKeptOrPlain repo_id hash content folder name fs
              (safe_name-IsPlain repo_id t) (safe_name-IsPlain hash t'))
      ]

  put_keyfile-IsKeptOrPlain :
      (repo_id content folder name : Text) (fs fs' : List File)
      → Files.put_keyfile repo_id content fs ≡ ok fs'
      → IsKeptOrPlain repo_id fs fs' folder name
  unfolding Files.put_keyfile is_plain text_beq
  put_keyfile-IsKeptOrPlain repo_id content folder name fs fs' h =
      elim (Bool-cases (safe_name repo_id)) [
        | inr f ↦ cc (rw f at h)
        | inl t ↦
            let e : write_file repo_id keyfile_name content fs ≡ fs' = cc (rw t at h) in
            subst (λ x. IsKeptOrPlain repo_id fs x folder name) e
              (write_file-IsKeptOrPlain repo_id keyfile_name content folder name fs
                (safe_name-IsPlain repo_id t) refl)
      ]

  -- The files part, for the routes that write.
  abbrev FilesKept : Text → Service → Service → Type 0
  FilesKept repo_id s s' = (folder name : Text) → IsKeptOrPlain repo_id s.files s'.files folder name

  serve_data-FilesKept :
      (route : DataRoute) (r : Request) (repo_id : Text) (now : ℕ) (s : Service)
      → Leaves (FilesKept repo_id s) (serve_data route r repo_id now s)
  unfolding serve_data handle_put_blob handle_delete_blob handle_put_manifest handle_put_roster
      handle_put_keyfile needs_write
  serve_data-FilesKept (put_blob hash) r repo_id now s =
      respond-Leaves s (λ folder name. inl refl)
        (Yields-bind (auth_repo r repo_id true now s) λ _ _. Yields-bind (body_of r) λ content _.
          Yields-bind (or_reply (Files.put_blob repo_id hash content s.files) _) λ fs e.
            Yields-ok _ (λ folder name.
              put_blob-IsKeptOrPlain repo_id hash content folder name s.files fs
                (or_reply-eq-ok _ _ e)))
  serve_data-FilesKept (delete_blob hash) r repo_id now s =
      respond-Leaves s (λ folder name. inl refl)
        (Yields-bind (auth_repo r repo_id true now s) λ _ _.
          Yields-ok _ (λ folder name. delete_blob-IsKeptOrPlain repo_id hash folder name s.files))
  serve_data-FilesKept put_manifest r repo_id now s =
      respond-Leaves s (λ folder name. inl refl)
        (Yields-bind (auth_repo r repo_id true now s) λ _ _. Yields-bind (if_match_of r) λ v _.
          Yields-bind (body_of r) λ blob _.
            Yields-bind (or_reply (cas_manifest repo_id v blob s.db) swap_error)
              λ (version, db) e. Yields-ok _ (λ folder name. inl refl))
  serve_data-FilesKept put_roster r repo_id now s =
      respond-Leaves s (λ folder name. inl refl)
        (Yields-bind (auth_repo r repo_id true now s) λ _ _. Yields-bind (if_match_of r) λ v _.
          Yields-bind (or_err (parse_etag_version r.new_version) (reply 400)) λ v' _.
            Yields-bind (body_of r) λ blob _.
              Yields-bind (or_reply (cas_roster repo_id v v' blob s.db) swap_error)
                λ db e. Yields-ok _ (λ folder name. inl refl))
  serve_data-FilesKept put_keyfile r repo_id now s =
      respond-Leaves s (λ folder name. inl refl)
        (Yields-bind (auth_repo r repo_id true now s) λ _ _. Yields-bind (body_of r) λ content _.
          Yields-bind (or_reply (Files.put_keyfile repo_id content s.files) _) λ fs e.
            Yields-ok _ (λ folder name.
              put_keyfile-IsKeptOrPlain repo_id content folder name s.files fs
                (or_reply-eq-ok _ _ e)))
  serve_data-FilesKept (get_blob hash) r repo_id now s = record {
    after = rw (serve_data_reads (get_blob hash) r repo_id now s refl) (λ folder name. inl refl);
  }
  serve_data-FilesKept (head_blob hash) r repo_id now s = record {
    after = rw (serve_data_reads (head_blob hash) r repo_id now s refl) (λ folder name. inl refl);
  }
  serve_data-FilesKept get_manifest r repo_id now s = record {
    after = rw (serve_data_reads get_manifest r repo_id now s refl) (λ folder name. inl refl);
  }
  serve_data-FilesKept get_roster r repo_id now s = record {
    after = rw (serve_data_reads get_roster r repo_id now s refl) (λ folder name. inl refl);
  }
  serve_data-FilesKept get_keyfile r repo_id now s = record {
    after = rw (serve_data_reads get_keyfile r repo_id now s refl) (λ folder name. inl refl);
  }

  -- A data route called for a repository changes a file only in the folder of that repository and
  -- where both components of its path are plain, so that filepath.Join keeps them; it leaves the
  -- manifest and the roster of each other repository, the access table and the accounts as they
  -- were.
  pub serve_data-IsConfined :
      (route : DataRoute) (r : Request) (repo_id : Text) (now : ℕ) (s : Service)
      → IsConfined repo_id s (serve_data route r repo_id now s).1
  serve_data-IsConfined route r repo_id now s = record {
    others = λ other ne. (serve_data-SameRepo route r repo_id other now s ne).after;
    files = (serve_data-FilesKept route r repo_id now s).after;
  }
