-- ===== src/Server/Files.antt =====
-- internal/server/storage.go: blobs and the keyfile, the files of a repository's directory.
use secret_git.Prelude.{
  Text, codes, Bool, true, false, ◌&&◌, ◌||◌, not, Option, none, some, List, [], ◌∷◌, if◌then◌else◌,
  ◌==◌, nat_eq, text_eq, option_eq, Result, ok, err, or_err, length, leb, delete_where,
}
use secret_git.Library.{Library}
use secret_git.Hex.{sha256_hex}
use secret_git.Server.{ServerError, not_found, bad_hash, File}

abbrev pub keyfile_name : Text
keyfile_name = codes "keyfile"

-- strings.ContainsAny(name, "/\\.")
unfoldable pub has_path_char : Text → Bool
has_path_char [] = false
has_path_char (c ∷ cs) = (c == b'/' || (c == 92 || c == b'.')) || has_path_char cs

-- safeName
unfoldable pub safe_name : Text → Bool
unfolding has_path_char
safe_name name = (not (name == []) && not (has_path_char name)) && leb (length name) 128

abbrev pub is_file : Text → Text → File → Bool
is_file repo_id name f = f.repo_id == repo_id && f.name == name

-- os.ReadFile, os.Stat
unfoldable pub read_file : Text → Text → List File → Option Text
read_file repo_id name [] = none
read_file repo_id name (f ∷ fs) =
    if is_file repo_id name f then some f.content else read_file repo_id name fs

-- writeFileAtomic: the new content, or the old one if the rename is not reached.
unfoldable pub write_file : Text → Text → Text → List File → List File
write_file repo_id name content fs =
    record { repo_id = repo_id; name = name; content = content }
    ∷ delete_where (is_file repo_id name) fs

-- os.Remove
unfoldable pub remove_file : Text → Text → List File → List File
remove_file repo_id name fs = delete_where (is_file repo_id name) fs

unfoldable pub file_exists : Text → Text → List File → Bool
file_exists repo_id name fs = elim (read_file repo_id name fs) [ none ↦ false | some _ ↦ true ]

-- getBlob, hasBlob, deleteBlob
unfoldable pub get_blob : Text → Text → List File → Result ServerError Text
get_blob repo_id hash fs =
    if not (safe_name repo_id) || not (safe_name hash)
    then err not_found
    else or_err (read_file repo_id hash fs) not_found

unfoldable pub has_blob : Text → Text → List File → Bool
has_blob repo_id hash fs =
    if not (safe_name repo_id) || not (safe_name hash) then false else file_exists repo_id hash fs

unfoldable pub delete_blob : Text → Text → List File → List File
delete_blob repo_id hash fs =
    if not (safe_name repo_id) || not (safe_name hash) then fs else remove_file repo_id hash fs

-- putKeyfile, getKeyfile
unfoldable pub put_keyfile : Text → Text → List File → Result ServerError (List File)
put_keyfile repo_id content fs =
    if safe_name repo_id then ok (write_file repo_id keyfile_name content fs) else err not_found

unfoldable pub get_keyfile : Text → List File → Result ServerError Text
get_keyfile repo_id fs =
    if safe_name repo_id
    then or_err (read_file repo_id keyfile_name fs) not_found
    else err not_found

module _ ⦃lib : Library⦄ where
  -- putBlob
  unfoldable pub put_blob : Text → Text → Text → List File → Result ServerError (List File)
  put_blob repo_id hash content fs =
      if not (safe_name repo_id) || not (safe_name hash)
      then err not_found
      else if sha256_hex content == hash
      then ok (if file_exists repo_id hash fs then fs else write_file repo_id hash content fs)
      else err bad_hash
