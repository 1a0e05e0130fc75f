-- ===== src/Store/LocalFs.antt =====
-- internal/store/localfs/localfs.go: the store in a local directory.
pub mod Writes
pub mod Contents
pub mod Refinement
pub mod Changes
pub mod Blobs
pub mod Swaps
pub mod Pointers
pub mod Locks
pub mod Promises
pub mod MemoryDisk
pub mod Races
mod Examples
use secret_git.Prelude.{
  Text, codes, ℕ, Bool, true, false, ◌||◌, not, Option, none, some, [], ◌∷◌, if◌then◌else◌, ◌==◌,
  nat_eq, text_eq, Result, ok, err, or_err,
}
use secret_git.Prelude.Results.{◌>>=◌, ◌>>◌}
use secret_git.Library.{Library}
use secret_git.Errors.{
  Error, not_found, version_conflict, invalid_blob_id, blob_id_mismatch, store_failed,
}
use secret_git.Exec.{Exec, continue}
use secret_git.Hex.{sha256_hex}
use secret_git.Split.{trim_space}
use secret_git.Jcs.Decimal.{decimal}
use secret_git.Server.Http.{parse_uint}
use secret_git.Store.{Store}
use secret_git.Store.Disk.{FileSystem, FileError, not_exist, io_error, has_separator}

-- What a read returns where a missing file is ErrNotFound.
abbrev pub or_not_found : {A : Type 0} → Result FileError A → Result Error A
or_not_found (ok a) = ok a
or_not_found (err not_exist) = err not_found
or_not_found (err io_error) = err store_failed

-- What a read returns where every error is passed on.
abbrev pub or_failed : {A : Type 0} → Result FileError A → Result Error A
or_failed (ok a) = ok a
or_failed (err e) = err store_failed

-- The version in what a read of the version file returned.
unfoldable pub version_in : Result FileError Text → Result Error ℕ
unfolding parse_uint trim_space
version_in (ok content) = or_err (parse_uint (trim_space content)) store_failed
version_in (err not_exist) = ok 0
version_in (err io_error) = err store_failed

-- A blob that is read beside its version.
abbrev pub read_beside : ℕ → Result FileError Text → Result Error (Option Text × ℕ)
read_beside v (ok blob) = ok (some blob, v)
read_beside v (err e) = err store_failed

module _ {D : Type 0} (fs : FileSystem D) (root : Text) where
  -- blobPath
  unfoldable pub blob_path : Text → Text
  blob_path id = fs.join (root ∷ codes "blobs" ∷ id ∷ [])

  unfoldable pub manifest_blob_path : Text
  manifest_blob_path = fs.join (root ∷ codes "manifest" ∷ codes "blob" ∷ [])

  unfoldable pub manifest_version_path : Text
  manifest_version_path = fs.join (root ∷ codes "manifest" ∷ codes "version" ∷ [])

  -- lockPath
  unfoldable pub lock_path : Text
  lock_path = fs.join (root ∷ codes "manifest" ∷ codes "lock" ∷ [])

  unfoldable pub roster_blob_path : Text
  roster_blob_path = fs.join (root ∷ codes "roster" ∷ codes "blob" ∷ [])

  unfoldable pub roster_version_path : Text
  roster_version_path = fs.join (root ∷ codes "roster" ∷ codes "version" ∷ [])

  unfoldable pub roster_lock_path : Text
  roster_lock_path = fs.join (root ∷ codes "roster" ∷ codes "lock" ∷ [])

  unfoldable pub keyfile_path : Text
  keyfile_path = fs.join (root ∷ codes "keyfile" ∷ [])

module _ {D : Type 0} ⦃fs : FileSystem D⦄ where
  -- The end of writeAtomic, once the data is written.
  unfoldable pub close_and_rename : Text → Text → Exec D (Unit {0})
  close_and_rename t path d =
      let (closed, d1) = fs.close t d in
      let (renamed, d2) = fs.rename t path d1 in
      if closed then (if renamed then ok tt else err store_failed, d2) else (err store_failed, d1)

  -- writeAtomic, once the temporary file is open.
  unfoldable pub fill : Text → Text → Text → Exec D (Unit {0})
  unfolding close_and_rename
  fill t path content d =
      let (written, d1) = fs.write t content d in
      let done = close_and_rename t path d1 in
      if written then done else (err store_failed, (fs.close t d1).1)

  -- The deferred os.Remove of the temporary file.
  abbrev pub removing : Text → Result Error (Unit {0}) × D → Result Error (Unit {0}) × D
  removing t (r, d) = (r, (fs.remove t d).1)

  -- The rest of writeAtomic on what CreateTemp returned.
  abbrev pub with_temp : Text → Text → Option Text × D → Result Error (Unit {0}) × D
  with_temp path content (none, d) = (err store_failed, d)
  with_temp path content (some t, d) = removing t (fill t path content d)

  -- writeAtomic
  unfoldable pub write_atomic : Text → Text → Exec D (Unit {0})
  unfolding fill
  write_atomic path content d = with_temp path content (fs.create_temp (fs.dir path) d)

  -- MkdirAll of each folder in turn, until one fails.
  unfoldable pub make_folders : Text → D → Bool × D
  make_folders dir d =
      let (r0, d0) = fs.mkdir_all (fs.join (dir ∷ [] ∷ [])) d in
      let (r1, d1) = fs.mkdir_all (fs.join (dir ∷ codes "blobs" ∷ [])) d0 in
      let (r2, d2) = fs.mkdir_all (fs.join (dir ∷ codes "manifest" ∷ [])) d1 in
      let (r3, d3) = fs.mkdir_all (fs.join (dir ∷ codes "roster" ∷ [])) d2 in
      if not r0
      then (false, d0)
      else if not r1
      then (false, d1)
      else if not r2
      then (false, d2)
      else (r3, d3)

  -- Open; the store is its root.
  unfoldable pub open_store : Text → Exec D Text
  unfolding make_folders
  open_store dir d =
      let (made, d') = make_folders dir d in (if made then ok dir else err store_failed, d')

  -- withLock: the lock is released and its file closed whatever the body returns.
  unfoldable pub with_lock : {A : Type 0} → Text → Exec D A → Exec D A
  with_lock path body d =
      let (opened, d1) = fs.open_file path d in
      let (locked, d2) = fs.flock path d1 in
      let (r, d3) = body d2 in
      if not opened
      then (err store_failed, d1)
      else if not locked
      then (err store_failed, (fs.close path d2).1)
      else (r, (fs.close path (fs.unlock path d3).1).1)

  -- What CASManifest and CASRoster do under the lock, given the version that is stored.
  unfoldable pub swap : Result Error ℕ → Text → Text → ℕ → Text → ℕ → Exec D (Unit {0})
  unfolding write_atomic decimal
  swap (err e) blob_path version_path expected blob new d = (err e, d)
  swap (ok cur) blob_path version_path expected blob new d =
      let (wrote, d1) = write_atomic blob_path blob d in
      let finish = continue wrote (λ _. write_atomic version_path (decimal new)) d1 in
      if cur == expected then finish else (err version_conflict, d)

  module _ (root : Text) where
    unfoldable pub put_blob : ⦃lib : Library⦄ → Text → Text → Exec D (Unit {0})
    unfolding blob_path has_separator sha256_hex write_atomic
    put_blob id content d =
        if id == [] || has_separator id
        then (err invalid_blob_id, d)
        else if not (sha256_hex content == id)
        then (err blob_id_mismatch, d)
        else elim (fs.stat (blob_path fs root id) d) [
          | ok _ ↦ (ok tt, d)
          | err _ ↦ write_atomic (blob_path fs root id) content d
        ]

    unfoldable pub get_blob : Text → Exec D Text
    unfolding blob_path
    get_blob id d = (or_not_found (fs.read_file (blob_path fs root id) d), d)

    unfoldable pub has_blob : Text → Exec D Bool
    unfolding blob_path
    has_blob id d = elim (fs.stat (blob_path fs root id) d) [
      | ok _ ↦ (ok true, d)
      | err not_exist ↦ (ok false, d)
      | err io_error ↦ (err store_failed, d)
    ]

    unfoldable pub delete_blob : Text → Exec D (Unit {0})
    unfolding blob_path has_separator
    delete_blob id d =
        let (r, d') = fs.remove (blob_path fs root id) d in
        if id == [] || has_separator id then (err invalid_blob_id, d) else elim r [
          | ok _ ↦ (ok tt, d')
          | err not_exist ↦ (ok tt, d')
          | err io_error ↦ (err store_failed, d')
        ]

    unfoldable pub read_version : D → Result Error ℕ
    unfolding version_in manifest_version_path
    read_version d = version_in (fs.read_file (manifest_version_path fs root) d)

    unfoldable pub manifest_of : D → Result Error (Option Text × ℕ)
    unfolding read_version manifest_blob_path
    manifest_of d = do
      v ← read_version d
      if v == 0 then ok (none, 0) else read_beside v (fs.read_file (manifest_blob_path fs root) d)

    unfoldable pub get_manifest : Exec D (Option Text × ℕ)
    unfolding manifest_of
    get_manifest d = (manifest_of d, d)

    unfoldable pub cas_manifest : ℕ → Text → ℕ → Exec D (Unit {0})
    unfolding with_lock swap read_version manifest_blob_path manifest_version_path lock_path
    cas_manifest expected blob new = with_lock (lock_path fs root) (λ d.
        swap (read_version d) (manifest_blob_path fs root) (manifest_version_path fs root) expected
          blob new d)

    -- readVersionFile at the roster's version
    unfoldable pub roster_version : D → Result Error ℕ
    unfolding version_in roster_version_path
    roster_version d = version_in (fs.read_file (roster_version_path fs root) d)

    unfoldable pub roster_of : D → Result Error (Option Text × ℕ)
    unfolding roster_version roster_blob_path
    roster_of d = elim (fs.read_file (roster_blob_path fs root) d) [
      | err not_exist ↦ ok (none, 0)
      | err io_error ↦ err store_failed
      | ok blob ↦ roster_version d >>= λ v. ok (some blob, v)
    ]

    unfoldable pub get_roster : Exec D (Option Text × ℕ)
    unfolding roster_of
    get_roster d = (roster_of d, d)

    -- The version that CASRoster compares: zero where there is no roster.
    unfoldable pub stored_roster_version : D → Result Error ℕ
    unfolding roster_version roster_blob_path
    stored_roster_version d = elim (fs.stat (roster_blob_path fs root) d) [
      | ok _ ↦ roster_version d
      | err _ ↦ ok 0
    ]

    unfoldable pub cas_roster : ℕ → Text → ℕ → Exec D (Unit {0})
    unfolding with_lock swap stored_roster_version roster_blob_path roster_version_path
        roster_lock_path
    cas_roster expected blob new = with_lock (roster_lock_path fs root) (λ d.
        swap (stored_roster_version d) (roster_blob_path fs root) (roster_version_path fs root)
          expected blob new d)

    unfoldable pub put_keyfile : Text → Exec D (Unit {0})
    unfolding write_atomic keyfile_path
    put_keyfile content = write_atomic (keyfile_path fs root) content

    unfoldable pub get_keyfile : Exec D Text
    unfolding keyfile_path
    get_keyfile d = (or_not_found (fs.read_file (keyfile_path fs root) d), d)

    -- The store that Open returns.
    unfoldable pub local_store : ⦃lib : Library⦄ → Store D
    local_store = record {
      put_blob = put_blob;
      get_blob = get_blob;
      has_blob = has_blob;
      delete_blob = delete_blob;
      get_manifest = get_manifest;
      cas_manifest = cas_manifest;
      get_roster = get_roster;
      cas_roster = cas_roster;
      put_keyfile = put_keyfile;
      get_keyfile = get_keyfile;
    }
