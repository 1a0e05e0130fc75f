-- ===== src/Server/Repos.antt =====
-- internal/server/storage.go: repositories, access, invites, and the swaps of the manifest and
-- the roster.
pub mod Swaps
pub mod Invites
use secret_git.Prelude.{
  Text, ℕ, ◌+◌, ◌%◌, ◌^◌, Bool, true, false, ◌&&◌, not, Option, none, some, List, [], ◌∷◌, ◌++◌,
  if◌then◌else◌, ◌==◌, nat_eq, text_eq, option_eq, Result, ok, err, guard, or_err, ltb, find_where,
  count_where, update_where, delete_where, any_where,
}
use secret_git.Prelude.Results.{◌>>=◌, ◌>>◌}
use secret_git.Library.{Library}
use secret_git.Server.{
  ServerError, bad_token, not_found, conflict, constraint_violated, Access, Invite, Pointer, Db,
}
use secret_git.Server.Passwords.{new_token, hash_token, hash_password}
use secret_git.Server.Accounts.{insert_account}

-- createRepo
unfoldable pub create_repo : Text → ℕ → Db → Result ServerError Db
create_repo repo_id now db =
    if any_where (λ r. r.repo_id == repo_id) db.repos
    then err constraint_violated
    else ok
        (record db { repos = db.repos ++ (record { repo_id = repo_id; created_at = now } ∷ []) })

-- repoExists
unfoldable pub repo_exists : Text → Db → Bool
repo_exists repo_id db = ltb 0 (count_where (λ r. r.repo_id == repo_id) db.repos)

-- The key of repo_access.
abbrev pub is_access : ℕ → Text → Access → Bool
is_access id repo_id a = a.account_id == id && a.repo_id == repo_id

-- grantAccess: INSERT OR REPLACE
unfoldable pub grant_access : ℕ → Text → Text → Db → Db
grant_access id repo_id role db = record db {
  repo_access =
      delete_where (is_access id repo_id) db.repo_access
      ++ (record { account_id = id; repo_id = repo_id; role = role } ∷ []);
}

-- roleFor
unfoldable pub role_for : ℕ → Text → Db → Option Text
role_for id repo_id db = elim (find_where (is_access id repo_id) db.repo_access) [
  | none ↦ none
  | some a ↦ some a.role
]

-- The row of UPDATE invites SET used=1 WHERE token_hash=? AND used=0 AND expiry > ?.
abbrev pub is_live_invite : Text → ℕ → Invite → Bool
is_live_invite th now i = i.token_hash == th && (not i.used && ltb now i.expiry)

-- INSERT INTO repo_access
unfoldable pub insert_access : ℕ → Text → Text → Db → Result ServerError Db
insert_access id repo_id role db =
    if any_where (is_access id repo_id) db.repo_access
    then err constraint_violated
    else ok (record db {
      repo_access =
          db.repo_access ++ (record { account_id = id; repo_id = repo_id; role = role } ∷ []);
    })

module _ ⦃lib : Library⦄ where
  -- createInvite
  unfoldable pub create_invite : Text → Text → Text → ℕ → ℕ → Db → Result ServerError (Text × Db)
  create_invite drawn repo_id role now ttl db =
      let token = new_token drawn in
      if any_where (λ i. i.token_hash == hash_token token) db.invites
      then err constraint_violated
      else ok (
        token,
        record db {
          invites =
              db.invites
              ++ (record {
                token_hash = hash_token token;
                repo_id = repo_id;
                role = role;
                expiry = now + ttl;
                used = false;
              }
                  ∷ []);
        },
      )

  -- consumeInvite
  unfoldable pub consume_invite : Text → Text → Text → Text → ℕ → Db → Result ServerError Db
  consume_invite salt token username password now db = do
    let live = is_live_invite (hash_token token) now
    guard (count_where live db.invites == 1) bad_token
    let claimed = record db {
      invites = update_where live (λ i. record i { used = true }) db.invites;
    }
    i ← or_err (find_where (λ i. i.token_hash == hash_token token) claimed.invites) not_found
    created ← insert_account username (hash_password salt password) false claimed
    insert_access db.next_account i.repo_id i.role created

-- The stored pointer of a repository.
abbrev pub pointer : Text → List Pointer → Option Pointer
pointer repo_id rows = find_where (λ p. p.repo_id == repo_id) rows

-- A missing row reads as version 0.
abbrev pub version_of : Option Pointer → ℕ
version_of none = 0
version_of (some p) = p.version

-- INSERT ... ON CONFLICT(repo_id) DO UPDATE
unfoldable pub put_pointer : Text → ℕ → Text → List Pointer → List Pointer
put_pointer repo_id version blob [] =
    record { repo_id = repo_id; version = version; blob = blob } ∷ []
put_pointer repo_id version blob (p ∷ ps) =
    let rest = put_pointer repo_id version blob ps in
    if p.repo_id == repo_id
    then record { repo_id = repo_id; version = version; blob = blob } ∷ ps
    else p ∷ rest

-- getManifest, getRoster
unfoldable pub get_manifest : Text → Db → Option Pointer
get_manifest repo_id db = pointer repo_id db.manifest_state

unfoldable pub get_roster : Text → Db → Option Pointer
get_roster repo_id db = pointer repo_id db.roster_state

-- casManifest: the version is a uint64, kept as the int64 of the same bits.
unfoldable pub cas_manifest : Text → ℕ → Text → Db → Result ServerError (ℕ × Db)
unfolding put_pointer
cas_manifest repo_id expected blob db =
    if version_of (pointer repo_id db.manifest_state) == expected
    then ok (
      (expected + 1) % 2 ^ 64,
      record db {
        manifest_state = put_pointer repo_id ((expected + 1) % 2 ^ 64) blob db.manifest_state;
      },
    )
    else err conflict

-- casRoster
unfoldable pub cas_roster : Text → ℕ → ℕ → Text → Db → Result ServerError Db
unfolding put_pointer
cas_roster repo_id expected new_version blob db =
    if version_of (pointer repo_id db.roster_state) == expected
    then ok (record db { roster_state = put_pointer repo_id new_version blob db.roster_state })
    else err conflict
