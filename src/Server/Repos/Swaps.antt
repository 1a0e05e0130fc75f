-- ===== src/Server/Repos/Swaps.antt =====
-- The swaps of internal/server/storage.go: casManifest and casRoster against getManifest and getRoster.
use secret_git.Prelude.{
  Text, ℕ, ◌+◌, ◌%◌, ◌^◌, ◌≡◌, ◌≢◌, text_beq_iff, some, List, [], ◌∷◌, if◌then◌else◌, ◌==◌, nat_eq,
  text_eq, option_eq, ok, err, find_where, arith,
}
use secret_git.Prelude.{==_refl}
use secret_git.Server.{conflict, Pointer, Db}
use secret_git.Server.Repos.{
  pointer, version_of, put_pointer, cas_manifest, cas_roster, get_manifest, get_roster,
}

pub pointer-put_pointer :
    (repo_id other blob : Text) (version : ℕ) (rows : List Pointer)
    → pointer other (put_pointer repo_id version blob rows) ≡ (
        if repo_id == other
        then some (record { repo_id = repo_id; version = version; blob = blob })
        else pointer other rows)
unfolding put_pointer find_where
pointer-put_pointer repo_id other blob version [] = ground arith
pointer-put_pointer repo_id other blob version (p ∷ ps) = ground (
  arith,
  text_beq_iff repo_id other,
  text_beq_iff p.repo_id other,
  text_beq_iff p.repo_id repo_id,
  pointer-put_pointer repo_id other blob version ps,
)

-- A swap that succeeds returns the next version (as a uint64) and stores it with the blob, for
-- its repository alone: every other repository's manifest, and every roster, is as before.
pub get_manifest-cas_manifest :
    (repo_id blob : Text) (expected version : ℕ) (db db' : Db)
    → cas_manifest repo_id expected blob db ≡ ok (version, db')
    → (version ≡ (expected + 1) % 2 ^ 64)
      × (version_of (get_manifest repo_id db) ≡ expected)
      × ((other : Text)
          → get_manifest other db' ≡ (
              if repo_id == other
              then some (record { repo_id = repo_id; version = version; blob = blob })
              else get_manifest other db))
      × ((other : Text) → get_roster other db' ≡ get_roster other db)
unfolding cas_manifest get_manifest get_roster
get_manifest-cas_manifest repo_id blob expected version db db' h = (
  ground arith,
  ground arith,
  (λ other. ground (arith, pointer-put_pointer repo_id other blob version db.manifest_state)),
  (λ other. ground arith),
)

-- Of two writers that expect the same manifest version, the second is refused with a conflict,
-- whatever it writes.
pub cas_manifest_once :
    (repo_id blob blob' : Text) (expected version : ℕ) (db db' : Db)
    → cas_manifest repo_id expected blob db ≡ ok (version, db')
    → cas_manifest repo_id expected blob' db' ≡ err conflict
unfolding cas_manifest
cas_manifest_once repo_id blob blob' expected version db db' h =
    ground
      (arith, pointer-put_pointer repo_id repo_id blob version db.manifest_state, ==_refl repo_id)

-- Of two writers that expect the same roster version the second is refused with a conflict, whatever
-- it writes, provided that the first stored a different version.
pub cas_roster_once :
    (repo_id blob blob' : Text) (expected version version' : ℕ) (db db' : Db)
    → version ≢ expected
    → cas_roster repo_id expected version blob db ≡ ok db'
    → cas_roster repo_id expected version' blob' db' ≡ err conflict
unfolding cas_roster
cas_roster_once repo_id blob blob' expected version version' db db' ne h =
    ground
      (arith, pointer-put_pointer repo_id repo_id blob version db.roster_state, ==_refl repo_id)

-- The genesis roster can be replaced: after a swap from 0 to 0, a second swap from 0 to 0
-- succeeds and stores its own blob.
pub cas_roster-genesis_replaced :
    (repo_id blob blob' : Text) (db db' : Db)
    → cas_roster repo_id 0 0 blob db ≡ ok db'
    → (db'' : Db) × (cas_roster repo_id 0 0 blob' db' ≡ ok db'')
      × (get_roster repo_id db'' ≡ some (record { repo_id = repo_id; version = 0; blob = blob' }))
unfolding cas_roster get_roster
cas_roster-genesis_replaced repo_id blob blob' db db' h = (
  record db' { roster_state = put_pointer repo_id 0 blob' db'.roster_state },
  ground (arith, pointer-put_pointer repo_id repo_id blob 0 db.roster_state, ==_refl repo_id),
  ground (arith, pointer-put_pointer repo_id repo_id blob' 0 db'.roster_state, ==_refl repo_id),
)
