-- ===== src/Server/Accounts/Admins.antt =====
-- internal/server/storage.go: disableAccount, and the administrators that are enabled.
use secret_git.Prelude.{
  Text, ℕ, suc, ◌<◌, ◌≤◌, ◌≡◌, ◌≢◌, ap, Bool, true, false, ◌&&◌, not, some, List, [], ◌∷◌, ◌++◌,
  ◌==◌, nat_eq, text_eq, option_eq, ok, find_where, count_where, update_where, arith,
}
use secret_git.Prelude.Results.{◌>>=◌, ◌>>◌}
use secret_git.Prelude.{Bool-cases, inl, inr, count-update_from, All}
use secret_git.Prelude.Results
use secret_git.Server.{Account, Db}
use secret_git.Server.Accounts.{disable_account, account_by_username, is_other_admin}

abbrev pub is_active_admin : Account → Bool
is_active_admin a = a.is_admin && not a.disabled

abbrev pub DistinctIds : List Account → Type 0
DistinctIds [] = Unit {0}
DistinctIds (a ∷ rows) = All (λ b. b.id ≢ a.id) rows × DistinctIds rows

-- The ids are distinct and below the next of the sequence.
pub record IsSound (db : Db) : Type 0 where
  pub distinct : DistinctIds db.accounts
  pub below : All (λ a. a.id < db.next_account) db.accounts

ids_ne :
    (p : Account → Bool) (id : ℕ) (rows : List Account) (a : Account)
    → All (λ b. b.id ≢ id) rows
    → find_where p rows ≡ some a
    → a.id ≢ id
unfolding find_where
ids_ne p id [] a h f = cc
ids_ne p id (b ∷ rows) a h f = elim (Bool-cases (p b)) [
  | inl t ↦ λ e. h.0 (cc (rw t at f))
  | inr u ↦ ids_ne p id rows a h.1 (rw u at f)
]

others-All :
    (id : ℕ) (rows : List Account)
    → All (λ b. b.id ≢ id) rows
    → count_where is_active_admin rows ≤ count_where (is_other_admin id) rows
unfolding count_where
others-All id [] h = omega arith
others-All id (b ∷ rows) h = ground (arith, h.0, others-All id rows h.1)

-- Where the account that is found is no active administrator, the others are all of them.
others_enough :
    (p : Account → Bool) (rows : List Account) (a : Account)
    → DistinctIds rows
    → find_where p rows ≡ some a
    → is_active_admin a ≡ false
    → count_where is_active_admin rows ≤ count_where (is_other_admin a.id) rows
unfolding find_where count_where
others_enough p [] a d f i = cc
others_enough p (b ∷ rows) a d f i = elim (Bool-cases (p b)) [
  | inl t ↦
      let e : b ≡ a = cc (rw t at f) in
      ground (arith, others-All b.id rows d.0, e, ap (λ (x : Account). x.id) e)
  | inr u ↦
      ground (arith, others_enough p rows a d.1 (rw u at f) i, ids_ne p b.id rows a d.0 (rw u at f))
]

module _ (username : Text) (db db' : Db) (a : Account)
    (found : account_by_username username db ≡ ok a)
    (done : disable_account username db ≡ ok db') where
  accounts-disable_account :
      db'.accounts
      ≡ update_where (λ b. b.id == a.id) (λ b. record b { disabled = true }) db.accounts
  unfolding disable_account
  accounts-disable_account = ground (arith, found, done)

  others_left : is_active_admin a ≡ true → 0 < count_where (is_other_admin a.id) db.accounts
  unfolding disable_account
  others_left active = ground (arith, found, done, active)

  row_found : find_where (λ b. b.username == username) db.accounts ≡ some a
  unfolding account_by_username
  row_found = ground (arith, found)

  active_left :
      DistinctIds db.accounts
      → 0 < count_where is_active_admin db.accounts
      → 0 < count_where is_active_admin db'.accounts
  active_left d h =
      let kept =
        count-update_from (λ b. b.id == a.id) (is_other_admin a.id) is_active_admin
          (λ b. record b { disabled = true }) db.accounts (λ b p. ground arith)
          (λ b p. ground arith) in
      let enough : 0 < count_where (is_other_admin a.id) db.accounts =
        elim (Bool-cases (is_active_admin a)) [
          | inl t ↦ others_left t
          | inr f ↦ omega (arith, others_enough _ db.accounts a d row_found f)
        ] in
      rw accounts-disable_account (omega (arith, kept, enough))

-- Where the ids are distinct and below the next and some administrator is enabled, one still is
-- after any account was disabled.
pub disable_account_keeps_admin :
    (username : Text) (db db' : Db)
    → IsSound db
    → 0 < count_where is_active_admin db.accounts
    → disable_account username db ≡ ok db'
    → 0 < count_where is_active_admin db'.accounts
unfolding disable_account
disable_account_keeps_admin username db db' sound h done =
    let (a, found, _) = Results.>>=-eq-ok (account_by_username username db) _ done in
    active_left username db db' a found done sound.distinct h

update_ids :
    (u : Account → Bool) (v : Bool) (id : ℕ) (rows : List Account)
    → All (λ b. b.id ≢ id) rows
    → All (λ b. b.id ≢ id) (update_where u (λ b. record b { disabled = v }) rows)
unfolding update_where
update_ids u v id [] h = tt
update_ids u v id (b ∷ rows) h = ground (arith, h.0, update_ids u v id rows h.1)

pub update-DistinctIds :
    (u : Account → Bool) (v : Bool) (rows : List Account)
    → DistinctIds rows
    → DistinctIds (update_where u (λ b. record b { disabled = v }) rows)
unfolding update_where
update-DistinctIds u v [] h = tt
update-DistinctIds u v (b ∷ rows) h = elim (Bool-cases (u b)) [
  | inl t ↦ rw t (update_ids u v b.id rows h.0, update-DistinctIds u v rows h.1)
  | inr f ↦ rw f (update_ids u v b.id rows h.0, update-DistinctIds u v rows h.1)
]

pub update_below :
    (u : Account → Bool) (v : Bool) (n : ℕ) (rows : List Account)
    → All (λ b. b.id < n) rows
    → All (λ b. b.id < n) (update_where u (λ b. record b { disabled = v }) rows)
unfolding update_where
update_below u v n [] h = tt
update_below u v n (b ∷ rows) h = ground (arith, h.0, update_below u v n rows h.1)

append_ids :
    (id : ℕ) (a : Account) (rows : List Account)
    → a.id ≢ id
    → All (λ b. b.id ≢ id) rows
    → All (λ b. b.id ≢ id) (rows ++ (a ∷ []))
append_ids id a [] ne h = (ne, tt)
append_ids id a (b ∷ rows) ne h = (h.0, append_ids id a rows ne h.1)

pub append-DistinctIds :
    (n : ℕ) (a : Account) (rows : List Account)
    → a.id ≡ n
    → All (λ b. b.id < n) rows
    → DistinctIds rows
    → DistinctIds (rows ++ (a ∷ []))
append-DistinctIds n a [] e below d = (tt, tt)
append-DistinctIds n a (b ∷ rows) e below d = (
  append_ids b.id a rows (ground (arith, below.0)) d.0,
  append-DistinctIds n a rows e below.1 d.1,
)

pub append_below :
    (n : ℕ) (a : Account) (rows : List Account)
    → a.id ≡ n
    → All (λ b. b.id < n) rows
    → All (λ b. b.id < suc n) (rows ++ (a ∷ []))
append_below n a [] e below = (omega (arith, e), tt)
append_below n a (b ∷ rows) e below = (omega (arith, below.0), append_below n a rows e below.1)
