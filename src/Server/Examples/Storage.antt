-- ===== src/Server/Examples/Storage.antt =====
-- The theorems about the storage at concrete inputs.
use secret_git.Prelude.{
  Text, codes, ℕ, ◌+◌, ◌%◌, ◌^◌, ◌<◌, ◌≡◌, ◌≢◌, refl, true, false, some, [], ◌∷◌, ◌++◌,
  if◌then◌else◌, ◌==◌, nat_eq, text_eq, option_eq, ok, err, find_where, count_where, update_where,
  delete_where, any_where, arith, text_beq,
}
use secret_git.Samples.{toy_library}
use secret_git.Hex.{hex_encode}
use secret_git.Server.{Db, empty_db, bad_token, conflict, role_writer}
use secret_git.Server.Passwords.{hash_token, hash_password}
use secret_git.Server.Accounts.{
  authenticate, disable_account, consume_bootstrap, token_row, account_by_username, insert_account,
}
use secret_git.Server.Accounts.Revocation.{
  IsSession, authenticate-IsSession, authenticate-disable_account,
}
use secret_git.Server.Accounts.Admins.{IsSound, is_active_admin, disable_account_keeps_admin}
use secret_git.Server.Repos.{
  cas_manifest, cas_roster, get_manifest, get_roster, put_pointer, version_of, consume_invite,
  insert_access,
}
use secret_git.Server.Repos.Swaps.{
  get_manifest-cas_manifest, cas_manifest_once, cas_roster_once, cas_roster-genesis_replaced,
}
use secret_git.Server.Repos.Invites.{consume_invite_once, consume_bootstrap_once}
use secret_git.Server.Examples.{alice, bob, sample_db, one_pointer}

abbrev swapped_db : Db
swapped_db = record empty_db { manifest_state = one_pointer 1 (codes "m") }

swaps : cas_manifest (codes "r") 0 (codes "m") empty_db ≡ ok (1, swapped_db)
unfolding cas_manifest put_pointer find_where
swaps = refl

get_manifest-cas_manifest_example :
    (1 ≡ (0 + 1) % 2 ^ 64)
    × (version_of (get_manifest (codes "r") empty_db) ≡ 0)
    × ((other : Text)
        → get_manifest other swapped_db ≡ (
            if codes "r" == other
            then some (record { repo_id = codes "r"; version = 1; blob = codes "m" })
            else get_manifest other empty_db))
    × ((other : Text) → get_roster other swapped_db ≡ get_roster other empty_db)
get_manifest-cas_manifest_example =
    get_manifest-cas_manifest (codes "r") (codes "m") 0 1 empty_db swapped_db swaps

cas_manifest_once_example : cas_manifest (codes "r") 0 (codes "n") swapped_db ≡ err conflict
cas_manifest_once_example =
    cas_manifest_once (codes "r") (codes "m") (codes "n") 0 1 empty_db swapped_db swaps

abbrev roster_db : ℕ → Db
roster_db v = record empty_db { roster_state = one_pointer v (codes "m") }

advances : cas_roster (codes "r") 0 1 (codes "m") empty_db ≡ ok (roster_db 1)
unfolding cas_roster put_pointer find_where
advances = refl

cas_roster_once_example : cas_roster (codes "r") 0 2 (codes "n") (roster_db 1) ≡ err conflict
cas_roster_once_example =
    cas_roster_once (codes "r") (codes "m") (codes "n") 0 1 2 empty_db (roster_db 1)
      (λ e. omega (arith, e)) advances

creates : cas_roster (codes "r") 0 0 (codes "m") empty_db ≡ ok (roster_db 0)
unfolding cas_roster put_pointer find_where
creates = refl

cas_roster-genesis_replaced_example :
    (db'' : Db) × (cas_roster (codes "r") 0 0 (codes "n") (roster_db 0) ≡ ok db'')
    × (get_roster (codes "r") db''
        ≡ some (record { repo_id = codes "r"; version = 0; blob = codes "n" }))
cas_roster-genesis_replaced_example =
    cas_roster-genesis_replaced (codes "r") (codes "m") (codes "n") empty_db (roster_db 0) creates

authenticates : authenticate (codes "t") 5 sample_db ≡ ok (record { id = 2; is_admin = true })
unfolding authenticate token_row find_where text_beq hash_token hex_encode
authenticates = refl

authenticate-IsSession_example :
    IsSession (codes "t") 5 sample_db (record { id = 2; is_admin = true })
authenticate-IsSession_example = authenticate-IsSession (codes "t") 5 sample_db _ authenticates

finds_alice : account_by_username (codes "alice") sample_db ≡ ok alice
unfolding account_by_username find_where text_beq
finds_alice = refl

abbrev without_alice : Db
without_alice = record sample_db { accounts = record alice { disabled = true } ∷ bob ∷ [] }

disables : disable_account (codes "alice") sample_db ≡ ok without_alice
unfolding disable_account account_by_username find_where count_where update_where delete_where
    text_beq
disables = refl

still_valid : authenticate (codes "t") 5 without_alice ≡ ok (record { id = 2; is_admin = true })
unfolding authenticate token_row find_where text_beq hash_token hex_encode
still_valid = refl

authenticate-disable_account_example : ◌≢◌ {A = ℕ} 2 1
authenticate-disable_account_example =
    authenticate-disable_account (codes "alice") (codes "t") 5 sample_db without_alice alice
      (record { id = 2; is_admin = true }) finds_alice disables still_valid

sample-IsSound : IsSound sample_db
sample-IsSound = record {
  distinct = (((λ e. omega (arith, e)), tt), (tt, tt));
  below = (omega arith, (omega arith, tt));
}

two_admins : 0 < count_where is_active_admin sample_db.accounts
unfolding count_where
two_admins = omega arith

disable_account_keeps_admin_example : 0 < count_where is_active_admin without_alice.accounts
disable_account_keeps_admin_example =
    disable_account_keeps_admin (codes "alice") sample_db without_alice sample-IsSound two_admins
      disables

abbrev after_invite : Db
after_invite = record sample_db {
  accounts =
      sample_db.accounts
      ++ (record {
        id = 3;
        username = codes "carol";
        argon2_salt = (hash_password [] (codes "pw")).0;
        argon2_params = (hash_password [] (codes "pw")).1;
        argon2_hash = (hash_password [] (codes "pw")).2;
        is_admin = false;
        disabled = false;
      }
          ∷ []);
  next_account = 4;
  repo_access =
      sample_db.repo_access
      ++ (record { account_id = 3; repo_id = codes "r"; role = role_writer } ∷ []);
  invites =
      record {
        token_hash = hash_token (codes "i");
        repo_id = codes "r";
        role = role_writer;
        expiry = 100;
        used = true;
      }
      ∷ [];
}

redeems : consume_invite [] (codes "i") (codes "carol") (codes "pw") 5 sample_db ≡ ok after_invite
unfolding consume_invite insert_account insert_access count_where update_where find_where any_where
    text_beq hash_token hex_encode
redeems = refl

consume_invite_once_example :
    consume_invite [] (codes "i") (codes "dave") (codes "q") 9 after_invite ≡ err bad_token
consume_invite_once_example =
    consume_invite_once [] [] (codes "i") (codes "carol") (codes "dave") (codes "pw") (codes "q") 5
      9 sample_db after_invite (omega arith) redeems

abbrev after_bootstrap : Db
after_bootstrap = record sample_db {
  accounts =
      sample_db.accounts
      ++ (record {
        id = 3;
        username = codes "carol";
        argon2_salt = (hash_password [] (codes "pw")).0;
        argon2_params = (hash_password [] (codes "pw")).1;
        argon2_hash = (hash_password [] (codes "pw")).2;
        is_admin = true;
        disabled = false;
      }
          ∷ []);
  next_account = 4;
  bootstrap = record { token_hash = hash_token (codes "b"); used = true } ∷ [];
}

bootstraps :
    consume_bootstrap [] (codes "b") (codes "carol") (codes "pw") sample_db ≡ ok after_bootstrap
unfolding consume_bootstrap insert_account count_where update_where find_where any_where text_beq
    hash_token hex_encode
bootstraps = refl

consume_bootstrap_once_example :
    consume_bootstrap [] (codes "b") (codes "dave") (codes "q") after_bootstrap ≡ err bad_token
consume_bootstrap_once_example =
    consume_bootstrap_once [] [] (codes "b") (codes "carol") (codes "dave") (codes "pw") (codes "q")
      sample_db after_bootstrap bootstraps
