-- ===== src/Server/Repos/Invites.antt =====
-- internal/server/storage.go: consumeInvite and consumeBootstrap, called twice.
use secret_git.Prelude.{
  Text, ℕ, ◌≤◌, ◌≡◌, true, nat_eq, text_eq, option_eq, ok, err, update_where, arith,
}
use secret_git.Library.{Library}
use secret_git.Prelude.{count-update_zero}
use secret_git.Server.{bad_token, Db}
use secret_git.Server.Passwords.{hash_token}
use secret_git.Server.Accounts.{insert_account, consume_bootstrap, is_live_bootstrap}
use secret_git.Server.Repos.{consume_invite, insert_access, is_live_invite}

module _ ⦃lib : Library⦄ where
  invites-consume_invite :
      (salt token username password : Text) (now : ℕ) (db db' : Db)
      → consume_invite salt token username password now db ≡ ok db'
      → db'.invites
        ≡ update_where
            (is_live_invite (hash_token token) now)
            (λ i. record i { used = true })
            db.invites
  unfolding consume_invite insert_account insert_access
  invites-consume_invite salt token username password now db db' h = ground arith

  -- An invite that was redeemed is refused at every later time, for every username and password.
  pub consume_invite_once :
      (salt salt' token username username' password password' : Text) (now now' : ℕ) (db db' : Db)
      → now ≤ now'
      → consume_invite salt token username password now db ≡ ok db'
      → consume_invite salt' token username' password' now' db' ≡ err bad_token
  unfolding consume_invite
  consume_invite_once salt salt' token username username' password password' now now' db db' le h =
      let spent =
        count-update_zero (is_live_invite (hash_token token) now)
          (is_live_invite (hash_token token) now') (λ i. record i { used = true }) db.invites
          (λ i. ground arith) (λ i e. ground arith) in
      rw (invites-consume_invite salt token username password now db db' h, spent)

  -- A bootstrap token that was redeemed is refused afterwards.
  pub consume_bootstrap_once :
      (salt salt' token username username' password password' : Text) (db db' : Db)
      → consume_bootstrap salt token username password db ≡ ok db'
      → consume_bootstrap salt' token username' password' db' ≡ err bad_token
  unfolding consume_bootstrap insert_account
  consume_bootstrap_once salt salt' token username username' password password' db db' h = ground (
    arith,
    count-update_zero (is_live_bootstrap (hash_token token)) (is_live_bootstrap (hash_token token))
        (λ b. record b { used = true }) db.bootstrap (λ b. ground arith) (λ b e. e),
  )
