-- ===== src/Server/Accounts/Revocation.antt =====
-- internal/server/storage.go: authenticate, alone and after disableAccount.
use secret_git.Prelude.Results
use secret_git.Prelude.{
  Text, ℕ, ◌<◌, ◌≡◌, ◌≢◌, false, Option, none, some, ◌==◌, nat_eq, text_eq, option_eq, ok, or_err,
  find_where, delete_where, arith,
}
use secret_git.Prelude.Results.{◌>>=◌, ◌>>◌}
use secret_git.Library.{Library}
use secret_git.Prelude.{find-delete_false}
use secret_git.Server.{ServerError, bad_token, Account, ApiToken, Db}
use secret_git.Server.Passwords.{hash_token}
use secret_git.Server.Accounts.{
  Session, authenticate, token_row, disable_account, account_by_username,
}

module _ ⦃lib : Library⦄ where
  -- The rows behind a session: a live token, stored by its hash, of an account that is enabled.
  pub record IsSession (token : Text) (now : ℕ) (db : Db) (s : Session) : Type 0 where
    pub row : ApiToken
    pub account : Account
    pub row_found : find_where (λ t. t.token_hash == hash_token token) db.api_tokens ≡ some row
    pub account_found : find_where (λ a. a.id == row.account_id) db.accounts ≡ some account
    pub live : now < row.expiry
    pub enabled : account.disabled ≡ false
    pub id : s.id ≡ row.account_id
    pub admin : s.is_admin ≡ account.is_admin

  token_row_rows :
      (th : Text) (db : Db) (t : ApiToken) (a : Account)
      → token_row th db ≡ some (t, a)
      → (find_where (λ t. t.token_hash == th) db.api_tokens ≡ some t)
        × (find_where (λ a. a.id == t.account_id) db.accounts ≡ some a)
  unfolding token_row
  token_row_rows th db t a h = ground arith

  or_err-eq-ok :
      (o : Option (ApiToken × Account)) (e : ServerError) (r : ApiToken × Account)
      → or_err o e ≡ ok r
      → o ≡ some r
  or_err-eq-ok none e r h = cc
  or_err-eq-ok (some q) e r h = cc

  -- A token authenticates only as its stored hash, before its expiry, for an account that is not
  -- disabled; the session carries that account's id and its administrator flag.
  pub authenticate-IsSession :
      (token : Text) (now : ℕ) (db : Db) (s : Session)
      → authenticate token now db ≡ ok s
      → IsSession token now db s
  unfolding authenticate
  authenticate-IsSession token now db s h =
      let (r, found, rest) =
        Results.>>=-eq-ok (or_err (token_row (hash_token token) db) bad_token) _ h in
      let (row_found, account_found) =
        token_row_rows (hash_token token) db r.0 r.1 (or_err-eq-ok _ _ r found) in
      record {
        row = r.0;
        account = r.1;
        row_found = row_found;
        account_found = account_found;
        live = ground (arith, rest);
        enabled = ground (arith, rest);
        id = ground (arith, rest);
        admin = ground (arith, rest);
      }

  api_tokens-disable_account :
      (username : Text) (db db' : Db) (a : Account)
      → account_by_username username db ≡ ok a
      → disable_account username db ≡ ok db'
      → db'.api_tokens ≡ delete_where (λ t. t.account_id == a.id) db.api_tokens
  unfolding disable_account
  api_tokens-disable_account username db db' a found done = ground arith

  -- After an account was disabled, no token authenticates as that account.
  pub authenticate-disable_account :
      (username token : Text) (now : ℕ) (db db' : Db) (a : Account) (s : Session)
      → account_by_username username db ≡ ok a
      → disable_account username db ≡ ok db'
      → authenticate token now db' ≡ ok s
      → s.id ≢ a.id
  authenticate-disable_account username token now db db' a s found done h e =
      let v = authenticate-IsSession token now db' s h in
      let kept =
        find-delete_false (λ t. t.account_id == a.id) (λ t. t.token_hash == hash_token token)
          db.api_tokens v.row
          (rw (api_tokens-disable_account username db db' a found done) at v.row_found) in
      ground (arith, kept, v.id)
