-- ===== src/Store/Disk.antt =====
-- The file system that internal/store/localfs runs on: the calls of os, path/filepath and syscall
-- that it makes, as a parameter, and what their documentation says of them. A call whose error is
-- only passed on answers with a Bool, which is false where it fails.
use secret_git.Prelude.{
  Text, codes, ℕ, ◌≡◌, ◌≢◌, ◌↔◌, Bool, true, false, ◌||◌, not, Option, none, some, List, [], ◌∷◌,
  ◌==◌, text_eq, nat_eq, Result, ok, err, All,
}
use secret_git.Server.Http.{strip_prefix}

-- os.ErrNotExist, and every other error.
pub data FileError : Type 0 where
  not_exist io_error : FileError

pub record FileSystem (D : Type 0) : Type 0 where
  -- filepath.Join, filepath.Dir
  pub join : List Text → Text
  pub dir : Text → Text
  -- os.ReadFile, os.Stat
  pub read_file : Text → D → Result FileError Text
  pub stat : Text → D → Result FileError (Unit {0})
  -- os.MkdirAll, os.CreateTemp with the pattern .tmp-*, File.Write, File.Close, os.Rename
  pub mkdir_all : Text → D → Bool × D
  pub create_temp : Text → D → Option Text × D
  pub write : Text → Text → D → Bool × D
  pub close : Text → D → Bool × D
  pub rename : Text → Text → D → Bool × D
  -- os.Remove
  pub remove : Text → D → Result FileError (Unit {0}) × D
  -- os.OpenFile with O_CREATE, syscall.Flock with LOCK_EX and LOCK_UN
  pub open_file : Text → D → Bool × D
  pub flock : Text → D → Bool × D
  pub unlock : Text → D → Bool × D

-- The separators of paths.
abbrev pub is_separator : ℕ → Bool
is_separator c = c == b'/' || c == 92

unfoldable pub has_separator : Text → Bool
has_separator [] = false
has_separator (c ∷ cs) = is_separator c || has_separator cs

unfoldable pub is_temp : Text → Bool
unfolding strip_prefix
is_temp name = elim (strip_prefix (codes ".tmp-") name) [ none ↦ false | some _ ↦ true ]

-- A component of a path that filepath.Join keeps as it is and os.CreateTemp does not draw.
unfoldable pub is_plain : Text → Bool
unfolding has_separator is_temp
is_plain name =
    not
      (name == [] || name == codes "." || name == codes ".." || has_separator name || is_temp name)

abbrev pub IsPlain : Text → Type 0
IsPlain name = is_plain name ≡ true

-- The documented behaviour of these calls, on a disk whose files have one name each.
pub record DiskLaws (D : Type 0) (fs : FileSystem D) : Type 0 where
  pub join_injective :
      (root : Text) (xs ys : List Text)
      → All IsPlain xs
      → All IsPlain ys
      → fs.join (root ∷ xs) ≡ fs.join (root ∷ ys)
      → xs ≡ ys
  pub stat_missing :
      (p : Text) (d : D) → (fs.stat p d ≡ err not_exist) ↔ (fs.read_file p d ≡ err not_exist)
  pub stat_readable : (p a : Text) (d : D) → fs.read_file p d ≡ ok a → fs.stat p d ≡ ok tt
  -- A new, empty file, whose name no other path has.
  pub create_temp_empty :
      (folder t : Text) (d : D)
      → (fs.create_temp folder d).0 ≡ some t
      → fs.read_file t (fs.create_temp folder d).1 ≡ ok []
  pub create_temp_apart :
      (folder t root x : Text) (xs : List Text) (d : D)
      → (fs.create_temp folder d).0 ≡ some t
      → All IsPlain (x ∷ xs)
      → t ≢ fs.join (root ∷ x ∷ xs)
  pub create_temp_same :
      (folder t q : Text) (d : D)
      → (fs.create_temp folder d).0 ≡ some t
      → q ≢ t
      → fs.read_file q (fs.create_temp folder d).1 ≡ fs.read_file q d
  pub create_temp_none :
      (folder q : Text) (d : D)
      → (fs.create_temp folder d).0 ≡ none
      → fs.read_file q (fs.create_temp folder d).1 ≡ fs.read_file q d
  -- All of the data stands in the file where Write reports no error.
  pub write_all :
      (t content : Text) (d : D)
      → fs.read_file t d ≡ ok []
      → (fs.write t content d).0 ≡ true
      → fs.read_file t (fs.write t content d).1 ≡ ok content
  pub write_same :
      (t content q : Text) (d : D)
      → q ≢ t
      → fs.read_file q (fs.write t content d).1 ≡ fs.read_file q d
  pub close_same : (t q : Text) (d : D) → fs.read_file q (fs.close t d).1 ≡ fs.read_file q d
  -- A rename replaces its target whole, or does nothing.
  pub rename_moves :
      (a b : Text) (d : D)
      → a ≢ b
      → (fs.rename a b d).0 ≡ true
      → fs.read_file b (fs.rename a b d).1 ≡ fs.read_file a d
  pub rename_same :
      (a b q : Text) (d : D) → q ≢ a → q ≢ b → fs.read_file q (fs.rename a b d).1 ≡ fs.read_file q d
  pub rename_failed :
      (a b q : Text) (d : D)
      → (fs.rename a b d).0 ≡ false
      → fs.read_file q (fs.rename a b d).1 ≡ fs.read_file q d
  pub remove_gone :
      (p : Text) (d : D)
      → (fs.remove p d).0 ≡ ok tt
      → fs.read_file p (fs.remove p d).1 ≡ err not_exist
  pub remove_same :
      (p q : Text) (d : D) → q ≢ p → fs.read_file q (fs.remove p d).1 ≡ fs.read_file q d
  pub remove_failed :
      (p q : Text) (d : D) (e : FileError)
      → (fs.remove p d).0 ≡ err e
      → fs.read_file q (fs.remove p d).1 ≡ fs.read_file q d
  pub remove_missing :
      (p : Text) (d : D) → (fs.remove p d).0 ≡ err not_exist → fs.read_file p d ≡ err not_exist
  pub open_file_same :
      (p q : Text) (d : D) → q ≢ p → fs.read_file q (fs.open_file p d).1 ≡ fs.read_file q d
  pub flock_same : (p q : Text) (d : D) → fs.read_file q (fs.flock p d).1 ≡ fs.read_file q d
  pub unlock_same : (p q : Text) (d : D) → fs.read_file q (fs.unlock p d).1 ≡ fs.read_file q d
