-- ===== src/Server/Examples/Limits.antt =====
-- The theorems about addresses and slots at concrete inputs.
use secret_git.Prelude.{
  Text, codes, ◌*◌, arith, true, false, ◌≢◌, delete_where, find_where, any_where, ◌≡◌, refl, none,
  some, List, [], ◌∷◌, ◌==◌, text_eq, nat_eq, text_beq,
}
use secret_git.Server.ClientIp.{Netip, ProxyConfig, client_ip}
use secret_git.Samples.{toy_library}
use secret_git.Server.{empty_db}
use secret_git.Server.Http.{Service, Config}
use secret_git.Hex.{hex_decode, hex_value}
use secret_git.Server.Passwords.{verify_password, argon2_key, parse_params, format_params}
use secret_git.Server.Login.Cleared.{handle_login_again}
use secret_git.Server.Login.{handle_login, try_login, after_login}
use secret_git.Server.Accounts.{issue_token, login, account_by_username}
use secret_git.Server.Login.Throttled.{handle_login-blocks}
use secret_git.Server.Throttling.{second, throttle_status}
use secret_git.Server.Slots.{Event, sends, expires, acquires, releases, slots_after}
use secret_git.Server.Slots.Bounded.{IsBounded, running_bound}

-- Addresses as their texts, prefixes as single addresses.
abbrev texts : Netip Text Text
texts = record {
  split_host_port = λ s. none;
  parse_addr = λ s. some s;
  unmap = λ a. a;
  addr_text = λ a. a;
  contains = λ p a. p == a;
}

abbrev behind_proxy : ProxyConfig Text
behind_proxy = record {
  client_ip_header = codes "X-Forwarded-For";
  trusted_proxy_cidrs = codes "10.0.0.1" ∷ [];
}

abbrev two_hops : Text → Text
two_hops name = codes "6.6.6.6, 9.9.9.9"

client_ip_run : client_ip texts behind_proxy (codes "10.0.0.1") two_hops ≡ codes "9.9.9.9"
unfolding client_ip text_beq
client_ip_run = refl

-- Two requests ask for the one slot, the first releases it and the second asks again.
abbrev two_requests : List Event
two_requests =
    acquires 8 sends ∷ releases 7 ∷ acquires 9 expires ∷ acquires 8 sends ∷ acquires 7 sends ∷ []

two_requests_run : (slots_after 1 two_requests).running ≡ 8 ∷ []
unfolding slots_after
two_requests_run = refl

running_bound_example : IsBounded 1 (slots_after 1 two_requests)
running_bound_example = running_bound 1 two_requests

-- A second of backoff, a minute at most; nobody has an account.
abbrev one_second : Config
one_second = record {
  token_ttl = 60;
  invite_ttl = 60;
  login_backoff_base = second;
  login_backoff_max = 60 * second;
  throttle_prune_grace = 3600;
}

abbrev nobody_known : Service
nobody_known = record { db = empty_db; files = []; costs = [] }

refused_login :
    (handle_login one_second [] 5
      (codes "a")
      true
      (some (codes "u", codes "p"))
      nobody_known).0.status
    ≡ 401
unfolding handle_login throttle_status delete_where try_login after_login login account_by_username
    find_where
refused_login = refl

handle_login-blocks_example :
    (handle_login one_second [] 5
      (codes "b")
      true
      (some (codes "u", codes "q"))
      (handle_login one_second [] 5
        (codes "a")
        true
        (some (codes "u", codes "p"))
        nobody_known).1).0.status
    ≡ 429
handle_login-blocks_example =
    handle_login-blocks one_second [] [] 5 5 (codes "a") (codes "b") (codes "u") (codes "p")
      (codes "q") true true nobody_known (omega arith) (omega arith) (omega arith) (omega arith)
      refused_login (omega arith)

-- dave, whose password is p.
abbrev dave_known : Service
dave_known = record nobody_known {
  db = record empty_db {
    accounts =
        record {
          id = 1;
          username = codes "dave";
          argon2_salt = [];
          argon2_params = format_params;
          argon2_hash = codes "70";
          is_admin = false;
          disabled = false;
        }
        ∷ [];
  };
}

granted_login :
    (handle_login one_second [] 5
      (codes "a")
      true
      (some (codes "dave", codes "p"))
      dave_known).0.status
    ≡ 200
unfolding handle_login throttle_status delete_where try_login after_login login account_by_username
    find_where text_beq verify_password hex_decode hex_value parse_params format_params issue_token
    argon2_key any_where
granted_login = refl

handle_login_again_example :
    (handle_login one_second [] 6
      (codes "a")
      true
      (some (codes "dave", codes "q"))
      (handle_login one_second [] 5
        (codes "a")
        true
        (some (codes "dave", codes "p"))
        dave_known).1).0.status
    ≢ 429
handle_login_again_example =
    handle_login_again one_second [] [] 5 6 (codes "a") (codes "dave") (codes "p") (codes "q") true
      true dave_known (omega arith) granted_login
