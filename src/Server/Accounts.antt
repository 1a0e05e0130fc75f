-- ===== src/Server/Accounts.antt =====
-- internal/server/storage.go: bootstrap, accounts, login, tokens, and account revocation. Each
-- transaction is one function; where it fails, the database stays as it was. Randomness and
-- the time are arguments.
pub mod Revocation
pub mod Admins
pub mod Ledger
use secret_git.Prelude.{
  Text, ℕ, suc, ◌+◌, Bool, true, false, ◌&&◌, ◌||◌, not, Option, none, some, List, [], ◌∷◌, ◌++◌,
  if◌then◌else◌, ◌==◌, nat_eq, text_eq, option_eq, Result, ok, err, guard, unless, or_err, leb, ltb,
  find_where, count_where, update_where, delete_where, any_where,
}
use secret_git.Prelude.Results.{◌>>=◌, ◌>>◌}
use secret_git.Library.{Library}
use secret_git.Server.{
  ServerError, bad_token, not_found, used_or_expired, last_admin, constraint_violated, Account,
  ApiToken, Bootstrap, Db,
}
use secret_git.Server.Passwords.{
  Cost, new_token, hash_token, hash_password, verify_password, decoy_salt_hex, decoy_hash_hex,
  format_params,
}

-- account: what a token is resolved to
pub record Session : Type 0 where
  pub id : ℕ
  pub is_admin : Bool

-- SELECT COUNT(*) FROM accounts WHERE is_admin=1
unfoldable pub admin_count : Db → ℕ
admin_count db = count_where (λ a. a.is_admin) db.accounts

-- INSERT INTO accounts: the username is unique, and the id is the next of the sequence.
unfoldable pub insert_account : Text → Text × Text × Text → Bool → Db → Result ServerError Db
insert_account username (salt, params, hash) is_admin db =
    if any_where (λ a. a.username == username) db.accounts
    then err constraint_violated
    else ok (record db {
      accounts =
          db.accounts
          ++ (record {
            id = db.next_account;
            username = username;
            argon2_salt = salt;
            argon2_params = params;
            argon2_hash = hash;
            is_admin = is_admin;
            disabled = false;
          }
              ∷ []);
      next_account = suc db.next_account;
    })

-- SELECT ... FROM accounts WHERE username=?
unfoldable pub account_by_username : Text → Db → Result ServerError Account
account_by_username username db =
    or_err (find_where (λ a. a.username == username) db.accounts) not_found

-- The row of UPDATE bootstrap SET used=1 WHERE token_hash=? AND used=0.
abbrev pub is_live_bootstrap : Text → Bootstrap → Bool
is_live_bootstrap th b = b.token_hash == th && not b.used

module _ ⦃lib : Library⦄ where
  -- EnsureBootstrap: the token that is printed, if one is made.
  unfoldable pub ensure_bootstrap : Text → Db → Option Text × Db
  ensure_bootstrap drawn db =
      if ltb 0 (admin_count db)
      then (none, db)
      else if ltb 0 (count_where (λ b. not b.used) db.bootstrap)
      then (none, db)
      else (
        some (new_token drawn),
        record db {
          bootstrap =
              db.bootstrap
              ++ (record { token_hash = hash_token (new_token drawn); used = false } ∷ []);
        },
      )

  -- consumeBootstrap
  unfoldable pub consume_bootstrap : Text → Text → Text → Text → Db → Result ServerError Db
  consume_bootstrap salt token username password db = do
    let live = is_live_bootstrap (hash_token token)
    guard (count_where live db.bootstrap == 1) bad_token
    insert_account username (hash_password salt password) true
        (record db { bootstrap = update_where live (λ b. record b { used = true }) db.bootstrap })

  -- What login makes of the account and of the outcome of the password check.
  unfoldable pub issue_token :
      Text → ℕ → Account → Result ServerError Bool → Db → Result ServerError (Text × Db)
  issue_token drawn expiry a checked db = do
    matches ← checked
    unless (not matches || a.disabled) bad_token
    let token = new_token drawn
    unless (any_where (λ t. t.token_hash == hash_token token) db.api_tokens) constraint_violated
    ok (
      token,
      record db {
        api_tokens =
            db.api_tokens
            ++ (record { token_hash = hash_token token; account_id = a.id; expiry = expiry } ∷ []);
      },
    )

  abbrev pub login_as :
      Result ServerError Account → Text → Text → ℕ → Db → Result ServerError (Text × Db) × List Cost
  login_as (err e) drawn password expiry db =
      (err bad_token, (verify_password password decoy_salt_hex format_params decoy_hash_hex).1)
  login_as (ok a) drawn password expiry db =
      let (checked, costs) = verify_password password a.argon2_salt a.argon2_params a.argon2_hash in
      (issue_token drawn expiry a checked db, costs)

  -- login, with the costs of argon2id that it pays; an unknown username pays for the decoy.
  unfoldable pub login :
      Text → Text → Text → ℕ → ℕ → Db → Result ServerError (Text × Db) × List Cost
  login drawn username password now ttl db =
      login_as (account_by_username username db) drawn password (now + ttl) db

  -- The row of api_tokens JOIN accounts.
  unfoldable pub token_row : Text → Db → Option (ApiToken × Account)
  token_row th db = elim (find_where (λ t. t.token_hash == th) db.api_tokens) [
    | none ↦ none
    | some t ↦ elim (find_where (λ a. a.id == t.account_id) db.accounts) [
      | none ↦ none
      | some a ↦ some (t, a)
    ]
  ]

  -- authenticate
  unfoldable pub authenticate : Text → ℕ → Db → Result ServerError Session
  authenticate token now db = do
    (t, a) ← or_err (token_row (hash_token token) db) bad_token
    guard (t.token_hash == hash_token token) bad_token
    unless a.disabled bad_token
    unless (leb t.expiry now) used_or_expired
    ok (record { id = t.account_id; is_admin = a.is_admin })

-- The accounts that keep disableAccount from locking every administrator out.
abbrev pub is_other_admin : ℕ → Account → Bool
is_other_admin id a = (a.is_admin && not a.disabled) && not (a.id == id)

-- disableAccount
unfoldable pub disable_account : Text → Db → Result ServerError Db
disable_account username db = do
  a ← account_by_username username db
  unless ((a.is_admin && not a.disabled) && count_where (is_other_admin a.id) db.accounts == 0)
      last_admin
  ok (record db {
    accounts = update_where (λ b. b.id == a.id) (λ b. record b { disabled = true }) db.accounts;
    api_tokens = delete_where (λ t. t.account_id == a.id) db.api_tokens;
  })

-- enableAccount
unfoldable pub enable_account : Text → Db → Result ServerError Db
enable_account username db = do
  let named = λ (b : Account). b.username == username
  unless (count_where named db.accounts == 0) not_found
  ok (record db { accounts = update_where named (λ b. record b { disabled = false }) db.accounts })
