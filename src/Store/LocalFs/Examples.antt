-- ===== src/Store/LocalFs/Examples.antt =====
-- Runs of localfs.go on a disk in memory, and the theorems at concrete inputs.
use secret_git.Prelude.{
  [], ◌∷◌, Text, codes, ◌≡◌, ◌≢◌, refl, sym, ap, subst, some, nat_eq, text_eq, Result, ok, err,
  arith, text_beq,
}
use secret_git.Samples.{toy_library}
use secret_git.Exec.Ends.{Ends}
use secret_git.Store.Disk.{not_exist, is_plain}
use secret_git.Store.LocalFs.Writes.{below, SameBut, SameAll, write_atomic-Ends}
use secret_git.Store.Ideal.{promised, Contents, no_contents, Op, Answer, perform, done, pointer}
use secret_git.Store.LocalFs
use secret_git.Store.LocalFs.MemoryDisk.{Disk, memory, memory_laws}
use secret_git.Store.LocalFs.{local_store, write_atomic, manifest_blob_path, manifest_of}
use secret_git.Store.LocalFs.Contents.{Holds}
use secret_git.Store.LocalFs.Refinement.{Refines}
use secret_git.Store.LocalFs.Promises.{local_store-Refines}
use secret_git.Store.LocalFs.Races.{one_swap_wins, torn_read, Refines-ok}

abbrev empty_disk : Disk
empty_disk p = err not_exist

abbrev root : Text
root = codes "/srv"

abbrev run : Op → Disk → Result secret_git.Errors.Error Answer × Disk
run op d = perform (local_store root) op d

empty_Holds : Holds memory root empty_disk no_contents
unfolding LocalFs.manifest_of LocalFs.roster_of
empty_Holds = record {
  blob = λ id p. refl;
  manifest = refl;
  manifest_version = refl;
  roster = refl;
  roster_version = refl;
  keyfile = refl;
}

local_store-Refines_example :
    Refines memory root
      (Op.cas_manifest 0 (codes "m1") 1)
      no_contents
      (perform (local_store root) (Op.cas_manifest 0 (codes "m1") 1) empty_disk)
local_store-Refines_example =
    local_store-Refines memory memory_laws root (Op.cas_manifest 0 (codes "m1") 1) empty_disk
      no_contents (omega arith, omega arith) empty_Holds

-- A swap, and what is read after it.
swap_run :
    (run Op.get_manifest (run (Op.cas_manifest 0 (codes "m1") 1) empty_disk).1).0
    ≡ ok (pointer (some (codes "m1"), 1))
unfolding local_store LocalFs.get_manifest LocalFs.cas_manifest text_beq
swap_run = refl

-- The first swap succeeds.
first_swap : (run (Op.cas_manifest 0 (codes "m1") 1) empty_disk).0 ≡ ok done
unfolding local_store LocalFs.cas_manifest text_beq
first_swap = refl

one_swap_wins_example :
    (run (Op.cas_manifest 0 (codes "m2") 1) (run (Op.cas_manifest 0 (codes "m1") 1) empty_disk).1).0
    ≢ ok done
one_swap_wins_example =
    one_swap_wins memory memory_laws root 0 1 1 (codes "m1") (codes "m2") empty_disk no_contents
      empty_Holds (omega arith, omega arith) (omega arith, omega arith) (λ e. omega (arith, e))
      first_swap

abbrev second_disk : Disk
second_disk = (run (Op.cas_manifest 0 (codes "m1") 1) empty_disk).1

abbrev second_contents : Contents
second_contents = record no_contents { manifest = (some (codes "m1"), 1) }

second_Holds : Holds memory root second_disk second_contents
unfolding promised
second_Holds =
    let (c, e, h) = Refines-ok memory memory_laws root local_store-Refines_example first_swap in
    subst (Holds memory root second_disk)
      (sym (ap (λ (x : Result secret_git.Errors.Error Answer × Contents). x.1) e)) h

torn_read_example :
    manifest_of root (write_atomic (manifest_blob_path memory root) (codes "m2") second_disk).1
    ≡ ok (some (codes "m2"), 1)
unfolding local_store LocalFs.cas_manifest text_beq write_atomic manifest_blob_path
torn_read_example =
    torn_read memory memory_laws root (codes "m2") second_disk second_contents second_Holds refl
      refl

write_atomic-Ends_example :
    Ends
      (λ _ d.
        (d (below memory root (codes "keyfile") []) ≡ ok (codes "k"))
        × SameBut memory root (codes "keyfile" ∷ []) empty_disk d)
      (λ d. SameAll memory root empty_disk d)
      (write_atomic (below memory root (codes "keyfile") []) (codes "k") empty_disk)
unfolding is_plain text_beq
write_atomic-Ends_example =
    write_atomic-Ends memory memory_laws root (codes "keyfile") [] (codes "k") empty_disk (refl, tt)
