-- ===== src/Server/Accounts/Ledger.antt =====
-- The invariant of the accounts, and the operations of internal/server/storage.go on it.
use secret_git.Prelude.{
  Text, ℕ, suc, ◌<◌, ◌≤◌, ◌≡◌, refl, Bool, true, false, [], ◌∷◌, ◌++◌, ◌==◌, nat_eq, text_eq,
  option_eq, ok, count_where, update_where, arith,
}
use secret_git.Prelude.Results.{◌>>=◌, ◌>>◌}
use secret_git.Library.{Library}
use secret_git.Prelude.{count-append, count-update_grows, count-update_shrinks}
use secret_git.Prelude.Results
use secret_git.Server.{Account, Db}
use secret_git.Server.Passwords.{hash_password}
use secret_git.Server.Accounts.{
  admin_count, insert_account, consume_bootstrap, disable_account, enable_account,
  account_by_username,
}
use secret_git.Server.Repos.{consume_invite, insert_access}
use secret_git.Server.Accounts.Admins.{
  IsSound, is_active_admin, disable_account_keeps_admin, append-DistinctIds, append_below,
  update_below, update-DistinctIds,
}

pub record IsLedger (db : Db) : Type 0 where
  pub sound : IsSound db
  pub governed : 0 < admin_count db → 0 < count_where is_active_admin db.accounts

-- The accounts and the sequence of their ids are the same.
pub record SameAccounts (db db' : Db) : Type 0 where
  pub accounts : db'.accounts ≡ db.accounts
  pub next_account : db'.next_account ≡ db.next_account

pub SameAccounts-IsLedger : {db db' : Db} → SameAccounts db db' → IsLedger db → IsLedger db'
unfolding admin_count
SameAccounts-IsLedger {db = db} {db' = db'} e l = record {
  sound = record {
    distinct = rw e.accounts l.sound.distinct;
    below = rw (e.accounts, e.next_account) l.sound.below;
  };
  governed = rw e.accounts l.governed;
}

-- One account is added, with the next id and enabled.
record Joins (db db' : Db) : Type 0 where
  joined : Account
  accounts : db'.accounts ≡ db.accounts ++ (joined ∷ [])
  next_account : db'.next_account ≡ suc db.next_account
  id : joined.id ≡ db.next_account
  enabled : joined.disabled ≡ false

Joins-IsLedger : (db db' : Db) → Joins db db' → IsLedger db → IsLedger db'
unfolding admin_count count_where
Joins-IsLedger db db' j l = record {
  sound = record {
    distinct = rw j.accounts (
        append-DistinctIds db.next_account j.joined db.accounts j.id l.sound.below
          l.sound.distinct);
    below =
        rw (j.accounts, j.next_account)
          (append_below db.next_account j.joined db.accounts j.id l.sound.below);
  };
  governed = rw j.accounts (
      ground (
        arith,
        l.governed,
        j.enabled,
        count-append is_active_admin db.accounts (j.joined ∷ []),
        count-append (λ (a : Account). a.is_admin) db.accounts (j.joined ∷ []),
      ));
}

-- The flags of some accounts are set.
update-IsSound :
    (u : Account → Bool) (v : Bool) (db db' : Db)
    → db'.accounts ≡ update_where u (λ b. record b { disabled = v }) db.accounts
    → db'.next_account ≡ db.next_account
    → IsSound db
    → IsSound db'
update-IsSound u v db db' e n s = record {
  distinct = rw e (update-DistinctIds u v db.accounts s.distinct);
  below = rw (e, n) (update_below u v db.next_account db.accounts s.below);
}

update_admins :
    (u : Account → Bool) (v : Bool) (db db' : Db)
    → db'.accounts ≡ update_where u (λ b. record b { disabled = v }) db.accounts
    → admin_count db' ≤ admin_count db
unfolding admin_count
update_admins u v db db' e = rw e (
    count-update_shrinks u (λ a. a.is_admin) (λ a. a.is_admin) (λ b. record b { disabled = v })
      db.accounts (λ x h. h) (λ x h. h))

pub disable_account-IsLedger :
    (username : Text) (db db' : Db)
    → disable_account username db ≡ ok db'
    → IsLedger db
    → IsLedger db'
unfolding disable_account
disable_account-IsLedger username db db' h l =
    let (a, _, done) = Results.>>=-eq-ok (account_by_username username db) _ h in
    let e : db'.accounts
        ≡ update_where (λ b. b.id == a.id) (λ b. record b { disabled = true }) db.accounts =
      ground (arith, done) in
    record {
      sound = update-IsSound _ true db db' e (ground (arith, done)) l.sound;
      governed = λ some_admin.
          disable_account_keeps_admin username db db' l.sound
            (l.governed (omega (arith, some_admin, update_admins _ true db db' e))) h;
    }

pub enable_account-IsLedger :
    (username : Text) (db db' : Db)
    → enable_account username db ≡ ok db'
    → IsLedger db
    → IsLedger db'
unfolding enable_account
enable_account-IsLedger username db db' h l =
    let e : db'.accounts
        ≡ update_where (λ b. b.username == username) (λ b. record b { disabled = false })
            db.accounts =
      ground (arith, h) in
    let grows =
      count-update_grows (λ (b : Account). b.username == username) is_active_admin is_active_admin
        (λ b. record b { disabled = false }) db.accounts (λ x t. ground arith) (λ x t. t) in
    record {
      sound = update-IsSound _ false db db' e (ground (arith, h)) l.sound;
      governed = λ some_admin. rw e (
          omega
            (arith, grows, l.governed (omega (arith, some_admin, update_admins _ false db db' e))));
    }

abbrev new_account : ℕ → Text → Text × Text × Text → Bool → Account
new_account id username (salt, params, hash) is_admin = record {
  id = id;
  username = username;
  argon2_salt = salt;
  argon2_params = params;
  argon2_hash = hash;
  is_admin = is_admin;
  disabled = false;
}

module _ ⦃lib : Library⦄ where
  pub consume_bootstrap-IsLedger :
      (salt token username password : Text) (db db' : Db)
      → consume_bootstrap salt token username password db ≡ ok db'
      → IsLedger db
      → IsLedger db'
  unfolding consume_bootstrap insert_account
  consume_bootstrap-IsLedger salt token username password db db' h = Joins-IsLedger db db' record {
    joined = new_account db.next_account username (hash_password salt password) true;
    accounts = ground arith;
    next_account = ground arith;
    id = refl;
    enabled = refl;
  }

  pub consume_invite-IsLedger :
      (salt token username password : Text) (now : ℕ) (db db' : Db)
      → consume_invite salt token username password now db ≡ ok db'
      → IsLedger db
      → IsLedger db'
  unfolding consume_invite insert_account insert_access
  consume_invite-IsLedger salt token username password now db db' h = Joins-IsLedger db db' record {
    joined = new_account db.next_account username (hash_password salt password) false;
    accounts = ground arith;
    next_account = ground arith;
    id = refl;
    enabled = refl;
  }
