-- ===== src/Command/Memory.antt =====
-- An environment of the commands in memory, on which what is documented of it holds.
use secret_git.Prelude.{
  Text, codes, ℕ, zero, suc, ◌≤◌, ◌≡◌, refl, ap, true, not, Option, none, some, List, [], ◌∷◌, ◌++◌,
  ◌==◌, nat_eq, text_eq, ok, length, length-append, take, drop, arith, append_assoc,
}
use secret_git.Samples.{toy_library}
use secret_git.Server.Http.{strip_prefix}
use secret_git.Store.LocalFs.MemoryDisk.{Disk, memory, set, set_here}
use secret_git.Command.{RepoConfig, Environment, EnvironmentLaws, IsUtf8Map}

-- A text with its length in front.
abbrev field : Text → Text → Text
field t rest = length t ∷ (t ++ rest)

abbrev unfield : Text → Text × Text
unfield [] = ([], [])
unfield (n ∷ s) = (take n s, drop n s)

take-length-append : (t rest : Text) → take (length t) (t ++ rest) ≡ t
take-length-append [] rest = refl
take-length-append (c ∷ t) rest = ap (λ (s : Text). c ∷ s) (take-length-append t rest)

drop-length-append : (t rest : Text) → drop (length t) (t ++ rest) ≡ rest
drop-length-append [] rest = refl
drop-length-append (c ∷ t) rest = drop-length-append t rest

unfield-field : (t rest : Text) → unfield (field t rest) ≡ (t, rest)
unfield-field t rest = rw (take-length-append t rest, drop-length-append t rest) refl

abbrev write_config : RepoConfig → Text → Text
write_config c end = field c.store (field c.repo_id (field c.seed (field c.ca_cert end)))

abbrev read_config : Text → Option RepoConfig
read_config s =
    let (store, s1) = unfield s in
    let (repo_id, s2) = unfield s1 in
    let (seed, s3) = unfield s2 in
    let (ca_cert, s4) = unfield s3 in
    some (record { store = store; repo_id = repo_id; seed = seed; ca_cert = ca_cert })

read_config-write_config : (c : RepoConfig) → read_config (write_config c [] ++ (10 ∷ [])) ≡ some c
read_config-write_config c =
    rw
      (
        append_assoc c.store (field c.repo_id (field c.seed (field c.ca_cert []))) (10 ∷ []),
        take-length-append c.store
            (field c.repo_id (field c.seed (field c.ca_cert [])) ++ (10 ∷ [])),
        drop-length-append c.store
            (field c.repo_id (field c.seed (field c.ca_cert [])) ++ (10 ∷ [])),
        append_assoc c.repo_id (field c.seed (field c.ca_cert [])) (10 ∷ []),
        take-length-append c.repo_id (field c.seed (field c.ca_cert []) ++ (10 ∷ [])),
        drop-length-append c.repo_id (field c.seed (field c.ca_cert []) ++ (10 ∷ [])),
        append_assoc c.seed (field c.ca_cert []) (10 ∷ []),
        take-length-append c.seed (field c.ca_cert [] ++ (10 ∷ [])),
        drop-length-append c.seed (field c.ca_cert [] ++ (10 ∷ [])),
        append_assoc c.ca_cert [] (10 ∷ []),
        take-length-append c.ca_cert (10 ∷ []),
      )
      refl

abbrev write_tokens : List (Text × Text) → Text
write_tokens [] = []
write_tokens ((k, v) ∷ m) = field k (field v (write_tokens m))

abbrev read_tokens : ℕ → Text → List (Text × Text)
read_tokens zero s = []
read_tokens (suc f) [] = []
read_tokens (suc f) (c ∷ cs) =
    let (k, s1) = unfield (c ∷ cs) in let (v, s2) = unfield s1 in (k, v) ∷ read_tokens f s2

enough : (m : List (Text × Text)) → length m ≤ length (write_tokens m)
enough [] = omega arith
enough ((k, v) ∷ m) =
    omega (
      arith,
      enough m,
      length-append k (field v (write_tokens m)),
      length-append v (write_tokens m),
    )

read_tokens-write_tokens :
    (f : ℕ) (m : List (Text × Text)) → length m ≤ f → read_tokens f (write_tokens m) ≡ m
read_tokens-write_tokens zero [] h = refl
read_tokens-write_tokens (suc f) [] h = refl
read_tokens-write_tokens zero (p ∷ m) h = absurd (omega (arith, h))
read_tokens-write_tokens (suc f) ((k, v) ∷ m) h =
    rw
      (
        take-length-append k (field v (write_tokens m)),
        drop-length-append k (field v (write_tokens m)),
        take-length-append v (write_tokens m),
        drop-length-append v (write_tokens m),
        read_tokens-write_tokens f m (omega (arith, h)),
      )
      refl

abbrev pub environment : Environment Disk
environment = record {
  files = memory;
  write_file = λ p content d. (true, set p (ok content) d);
  user_config_dir = some (codes "/home/u/.config");
  ca_cert_env = [];
  config_json = λ c. write_config c [];
  config_of_json = read_config;
  tokens_json = write_tokens;
  tokens_of_json = λ s. some (read_tokens (length s) s);
  is_utf8 = λ s. true;
  url_scheme =
      λ s. elim (strip_prefix (codes "https:") s) [ none ↦ none | some _ ↦ some (codes "https") ];
  has_certificates = λ pem. not (pem == []);
}

any_utf8 : (m : List (Text × Text)) → IsUtf8Map (λ s. true) m
any_utf8 [] = tt
any_utf8 (p ∷ m) = ((refl, refl), any_utf8 m)

pub environment_laws : EnvironmentLaws Disk environment
environment_laws = record {
  written = λ p content d e. set_here p (ok content) d;
  utf8_empty = refl;
  config_decoded = λ c u. read_config-write_config c;
  config_utf8 = λ content c e. record { store = refl; repo_id = refl; seed = refl; ca_cert = refl };
  tokens_decoded = λ m u.
      (m, ap some (read_tokens-write_tokens (length (write_tokens m)) m (enough m)), λ key. refl);
  tokens_utf8 = λ content m e. any_utf8 m;
}
