-- ===== src/Store/LocalFs/MemoryDisk.antt =====
-- A disk in memory, on which the documented behaviour of the file system's calls holds: a
-- function from paths to what a read of them returns.
mod Paths
use secret_git.Prelude.{
  Text, codes, ℕ, ◌≡◌, ◌≢◌, ◌↔◌, refl, sym, ◌∙◌, ap, Bool, true, false, Option, none, some, List,
  [], ◌∷◌, ◌++◌, nat_eq, text_eq, ◌==◌, Result, ok, err, All, inl, inr, Bool-cases, append_assoc,
  if◌then◌else◌, arith, text_beq_iff,
}
use mathlib.Core.List.{reverse, reverse-append}
use secret_git.Store.Disk.{
  FileSystem, DiskLaws, FileError, IsPlain, not_exist, io_error, is_plain, has_separator,
}
use secret_git.Store.LocalFs.MemoryDisk.Paths.{
  join, prefix_cancel, join_plain, join_ends, temp_apart,
}

abbrev pub Disk : Type 0
Disk = Text → Result FileError Text

abbrev pub set : Text → Result FileError Text → Disk → Disk
set p v d = λ q. if q == p then v else d q

abbrev create_temp : Text → Result FileError Text → Disk → Option Text × Disk
create_temp t (err not_exist) d = (some t, set t (ok []) d)
create_temp t (err io_error) d = (none, d)
create_temp t (ok old) d = (none, d)

abbrev write : Text → Text → Result FileError Text → Disk → Bool × Disk
write t content (ok old) d = (true, set t (ok (old ++ content)) d)
write t content (err e) d = (false, d)

abbrev rename : Text → Text → Result FileError Text → Disk → Bool × Disk
rename a b (ok content) d = (true, set b (ok content) (set a (err not_exist) d))
rename a b (err e) d = (false, d)

abbrev remove : Text → Result FileError Text → Disk → Result FileError (Unit {0}) × Disk
remove p (ok content) d = (ok tt, set p (err not_exist) d)
remove p (err e) d = (err e, d)

abbrev open_file : Text → Result FileError Text → Disk → Bool × Disk
open_file p (ok content) d = (true, d)
open_file p (err not_exist) d = (true, set p (ok []) d)
open_file p (err io_error) d = (false, d)

abbrev stat : Result FileError Text → Result FileError (Unit {0})
stat (ok content) = ok tt
stat (err e) = err e

instance abbrev pub memory : FileSystem Disk
memory = record {
  join = join;
  dir = λ p. p;
  read_file = λ p d. d p;
  stat = λ p d. stat (d p);
  mkdir_all = λ p d. (true, d);
  create_temp = λ folder d. create_temp (folder ++ codes ".tmp-0") (d (folder ++ codes ".tmp-0")) d;
  write = λ t content d. write t content (d t) d;
  close = λ t d. (true, d);
  rename = λ a b d. rename a b (d a) d;
  remove = λ p d. remove p (d p) d;
  open_file = λ p d. open_file p (d p) d;
  flock = λ p d. (true, d);
  unlock = λ p d. (true, d);
}

pub set_here : (p : Text) (v : Result FileError Text) (d : Disk) → set p v d p ≡ v
set_here p v d = rw ((text_beq_iff p p).1 refl) refl

set_there : (p q : Text) (v : Result FileError Text) (d : Disk) → q ≢ p → set p v d q ≡ d q
set_there p q v d n = elim (Bool-cases (q == p)) [
  | inl t ↦ absurd (n ((text_beq_iff q p).0 t))
  | inr f ↦ rw f refl
]

temp_chosen :
    (t u : Text) (d : Disk) (r : Result FileError Text) → (create_temp t r d).0 ≡ some u → u ≡ t
temp_chosen t u d (err not_exist) e = cc e
temp_chosen t u d (err io_error) e = cc
temp_chosen t u d (ok old) e = cc

-- The operations by what the path holds.
create_here :
    (t u : Text) (d : Disk) (r : Result FileError Text)
    → (create_temp t r d).0 ≡ some u
    → (create_temp t r d).1 u ≡ ok []
create_here t u d (err not_exist) e =
    rw (temp_chosen t u d (err not_exist) e) (set_here t (ok []) d)
create_here t u d (err io_error) e = cc
create_here t u d (ok old) e = cc

create_there :
    (t q : Text) (d : Disk) (r : Result FileError Text) → q ≢ t → (create_temp t r d).1 q ≡ d q
create_there t q d (err not_exist) n = set_there t q (ok []) d n
create_there t q d (err io_error) n = refl
create_there t q d (ok old) n = refl

create_nothing :
    (t q : Text) (d : Disk) (r : Result FileError Text)
    → (create_temp t r d).0 ≡ none
    → (create_temp t r d).1 q ≡ d q
create_nothing t q d (err not_exist) e = cc
create_nothing t q d (err io_error) e = refl
create_nothing t q d (ok old) e = refl

write_here :
    (t content : Text) (d : Disk) (r : Result FileError Text)
    → r ≡ ok []
    → (write t content r d).1 t ≡ ok content
write_here t content d (ok []) e = set_here t (ok content) d
write_here t content d (ok (c ∷ old)) e = cc
write_here t content d (err x) e = cc

write_there :
    (t content q : Text) (d : Disk) (r : Result FileError Text)
    → q ≢ t
    → (write t content r d).1 q ≡ d q
write_there t content q d (ok old) n = set_there t q (ok (old ++ content)) d n
write_there t content q d (err x) n = refl

rename_here :
    (a b : Text) (d : Disk) (r : Result FileError Text)
    → (rename a b r d).0 ≡ true
    → (rename a b r d).1 b ≡ r
rename_here a b d (ok content) e = set_here b (ok content) (set a (err not_exist) d)
rename_here a b d (err x) e = cc

rename_there :
    (a b q : Text) (d : Disk) (r : Result FileError Text)
    → q ≢ a
    → q ≢ b
    → (rename a b r d).1 q ≡ d q
rename_there a b q d (ok content) n m =
    set_there b q (ok content) (set a (err not_exist) d) m ∙ set_there a q (err not_exist) d n
rename_there a b q d (err x) n m = refl

rename_nothing :
    (a b q : Text) (d : Disk) (r : Result FileError Text)
    → (rename a b r d).0 ≡ false
    → (rename a b r d).1 q ≡ d q
rename_nothing a b q d (ok content) e = cc
rename_nothing a b q d (err x) e = refl

remove_here :
    (p : Text) (d : Disk) (r : Result FileError Text)
    → (remove p r d).0 ≡ ok tt
    → (remove p r d).1 p ≡ err not_exist
remove_here p d (ok content) e = set_here p (err not_exist) d
remove_here p d (err x) e = cc

remove_there :
    (p q : Text) (d : Disk) (r : Result FileError Text) → q ≢ p → (remove p r d).1 q ≡ d q
remove_there p q d (ok content) n = set_there p q (err not_exist) d n
remove_there p q d (err x) n = refl

remove_nothing :
    (p q : Text) (d : Disk) (r : Result FileError Text) (x : FileError)
    → (remove p r d).0 ≡ err x
    → ((remove p r d).1 q ≡ d q) × (r ≡ err x)
remove_nothing p q d (ok content) x e = cc
remove_nothing p q d (err y) x e = (refl, cc e)

open_there :
    (p q : Text) (d : Disk) (r : Result FileError Text) → q ≢ p → (open_file p r d).1 q ≡ d q
open_there p q d (ok content) n = refl
open_there p q d (err not_exist) n = set_there p q (ok []) d n
open_there p q d (err io_error) n = refl

stat_missing : (r : Result FileError Text) → (stat r ≡ err not_exist) ↔ (r ≡ err not_exist)
stat_missing (ok content) = (λ e. cc, λ e. cc)
stat_missing (err x) = (λ e. cc e, λ e. cc e)

stat_readable : (a : Text) (r : Result FileError Text) → r ≡ ok a → stat r ≡ ok tt
stat_readable a (ok content) e = refl
stat_readable a (err x) e = cc

pub memory_laws : DiskLaws Disk memory
memory_laws = record {
  join_injective = λ root xs ys p q e.
      join_plain xs ys p q (cc (prefix_cancel root (47 ∷ join xs) (47 ∷ join ys) e));
  stat_missing = λ p d. stat_missing (d p);
  stat_readable = λ p a d e. stat_readable a (d p) e;
  create_temp_empty = λ folder t d e. create_here (folder ++ codes ".tmp-0") t d _ e;
  create_temp_apart = λ folder t root x xs d e p h.
      let (s, k) = join_ends root (x ∷ xs) in
      temp_apart folder s (sym (temp_chosen (folder ++ codes ".tmp-0") t d _ e) ∙ h ∙ k);
  create_temp_same = λ folder t q d e n.
      create_there (folder ++ codes ".tmp-0") q d _
        (λ h. n (h ∙ sym (temp_chosen (folder ++ codes ".tmp-0") t d _ e)));
  create_temp_none = λ folder q d e. create_nothing (folder ++ codes ".tmp-0") q d _ e;
  write_all = λ t content d e k. write_here t content d _ e;
  write_same = λ t content q d n. write_there t content q d _ n;
  close_same = λ t q d. refl;
  rename_moves = λ a b d n e. rename_here a b d _ e;
  rename_same = λ a b q d n m. rename_there a b q d _ n m;
  rename_failed = λ a b q d e. rename_nothing a b q d _ e;
  remove_gone = λ p d e. remove_here p d _ e;
  remove_same = λ p q d n. remove_there p q d _ n;
  remove_failed = λ p q d x e. (remove_nothing p q d _ x e).0;
  remove_missing = λ p d e. (remove_nothing p p d _ not_exist e).1;
  open_file_same = λ p q d n. open_there p q d _ n;
  flock_same = λ p q d. refl;
  unlock_same = λ p q d. refl;
}
