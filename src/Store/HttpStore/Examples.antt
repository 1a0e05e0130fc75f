-- ===== src/Store/HttpStore/Examples.antt =====
-- Runs of httpstore.go against the handlers, and the theorem at a concrete input.
use secret_git.Prelude.{codes, ◌≡◌, refl, true, false, some, [], ◌∷◌, nat_eq, text_eq, arith}
use secret_git.Server.Accounts.{authenticate}
use secret_git.Server.Repos.{role_for}
use secret_git.Server.Http.{Service}
use secret_git.Server.Routes
use secret_git.Server.Routes.{DataRoute, needs_write, serve_data}
use secret_git.Split.{trim_space}
use secret_git.Store.Ideal.{Op, perform}
use secret_git.Store.HttpStore.{Transport, HttpStore, http_store}
use secret_git.Store.HttpStore.Served.{rendered, received, Carries, IsPermitted, relayed}
use secret_git.Prelude.{text_beq, find_where}
use secret_git.Hex.{hex_encode}
use secret_git.Server.Accounts.{token_row}
use secret_git.Samples.{toy_library}
use secret_git.Store.HttpStore.Relayed.{http_store-relayed}
use secret_git.Server.{Account, empty_db, role_writer}
use secret_git.Server.Passwords.{hash_token}

-- An account with a token that may write to the repository r.
abbrev writer : Account
writer = record {
  id = 2;
  username = codes "bob";
  argon2_salt = [];
  argon2_params = [];
  argon2_hash = [];
  is_admin = false;
  disabled = false;
}

abbrev service : Service
service = record {
  db = record empty_db {
    accounts = writer ∷ [];
    repo_access = record { account_id = 2; repo_id = codes "r"; role = role_writer } ∷ [];
    api_tokens = record { token_hash = hash_token (codes "t"); account_id = 2; expiry = 100 } ∷ [];
  };
  files = [];
  costs = [];
}

abbrev st : HttpStore
st = record { base = codes "https://h"; repo_id = codes "r"; token = codes "t" }

-- A network with one route.
abbrev swap_net : Transport Service
swap_net = record {
  accepts = λ q. true;
  send = λ q s.
      let (r, s') = serve_data Routes.put_manifest (received 1000 q) (codes "r") 5 s in
      (some (rendered r), s');
}

swap_Carries : Carries swap_net st 1000 5 Routes.put_manifest
swap_Carries = record { accepted = λ body h. refl; carried = λ body h s. refl }

writer_IsPermitted :
    IsPermitted swap_net st 1000 5 Routes.put_manifest (record { id = 2; is_admin = false }) service
unfolding authenticate role_for needs_write text_beq token_row find_where hash_token hex_encode
    trim_space
writer_IsPermitted = record { token_set = refl; session = refl; permitted = refl }

http_store-relayed_example :
    perform (http_store ⦃net = swap_net⦄ st) (Op.cas_manifest 0 (codes "m1") 1) service
    ≡ relayed (codes "r") (Op.cas_manifest 0 (codes "m1") 1) service
http_store-relayed_example =
    http_store-relayed swap_net st 1000 5 (Op.cas_manifest 0 (codes "m1") 1) service
      (record { id = 2; is_admin = false }) swap_Carries writer_IsPermitted (refl, omega arith)
