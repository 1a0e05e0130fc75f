-- ===== src/Command.antt =====
-- cmd/encgit: what the commands take from outside the program. encoding/json, net/url, the
-- environment and os.WriteFile are parameters, beside the file system of the local store.
pub mod Config
pub mod Tokens
pub mod Seeds
pub mod Genesis
pub mod Login
pub mod Branches
pub mod Runs
mod Memory
mod Examples
use secret_git.Prelude.{
  Text, ℕ, Bool, Option, List, [], ◌∷◌, ◌++◌, ◌≡◌, some, true, Result, ok, All, ◌==◌, nat_eq,
  text_eq, if◌then◌else◌,
}
use secret_git.Store.Disk.{FileSystem}

-- repoConfig
pub record RepoConfig : Type 0 where
  pub store : Text
  pub repo_id : Text
  pub seed : Text
  pub ca_cert : Text

abbrev pub no_config : RepoConfig
no_config = record { store = []; repo_id = []; seed = []; ca_cert = [] }

pub record Environment (D : Type 0) : Type 0 where
  pub files : FileSystem D
  -- os.WriteFile; os.UserConfigDir; os.Getenv of ENCGIT_CACERT
  pub write_file : Text → Text → D → Bool × D
  pub user_config_dir : Option Text
  pub ca_cert_env : Text
  -- json.MarshalIndent and json.Unmarshal of a configuration and of a map of tokens
  pub config_json : RepoConfig → Text
  pub config_of_json : Text → Option RepoConfig
  pub tokens_json : List (Text × Text) → Text
  pub tokens_of_json : Text → Option (List (Text × Text))
  -- utf8.ValidString
  pub is_utf8 : Text → Bool
  -- url.Parse, as far as the scheme; x509.CertPool.AppendCertsFromPEM
  pub url_scheme : Text → Option Text
  pub has_certificates : Text → Bool

-- m[key] of a map of texts, empty where there is none.
unfoldable pub map_get : Text → List (Text × Text) → Text
map_get key [] = []
map_get key ((k, v) ∷ m) = if k == key then v else map_get key m

-- The settings, or the keys and the values, are valid UTF-8.
pub record IsUtf8Config (is_utf8 : Text → Bool) (c : RepoConfig) : Type 0 where
  pub store : is_utf8 c.store ≡ true
  pub repo_id : is_utf8 c.repo_id ≡ true
  pub seed : is_utf8 c.seed ≡ true
  pub ca_cert : is_utf8 c.ca_cert ≡ true

abbrev pub IsUtf8Map : (Text → Bool) → List (Text × Text) → Type 0
IsUtf8Map is_utf8 m = All (λ (p : Text × Text). (is_utf8 p.0 ≡ true) × (is_utf8 p.1 ≡ true)) m

-- What the documentation says of these: a file that is written reads as what was written. A
-- string in valid UTF-8 is encoded and decoded again as it is, and a decoded string is valid
-- UTF-8. A list of tokens stands for a map, whose values are those that map_get finds: what is
-- decoded has the same values, in any order. A configuration is written with a newline after it.
pub record EnvironmentLaws (D : Type 0) (env : Environment D) : Type 0 where
  pub written :
      (p content : Text) (d : D)
      → (env.write_file p content d).0 ≡ true
      → env.files.read_file p (env.write_file p content d).1 ≡ ok content
  pub utf8_empty : env.is_utf8 [] ≡ true
  pub config_decoded :
      (c : RepoConfig)
      → IsUtf8Config env.is_utf8 c
      → env.config_of_json (env.config_json c ++ (10 ∷ [])) ≡ some c
  pub config_utf8 :
      (content : Text) (c : RepoConfig)
      → env.config_of_json content ≡ some c
      → IsUtf8Config env.is_utf8 c
  pub tokens_decoded :
      (m : List (Text × Text))
      → IsUtf8Map env.is_utf8 m
      → (m' : List (Text × Text)) × (env.tokens_of_json (env.tokens_json m) ≡ some m')
        × ((key : Text) → map_get key m' ≡ map_get key m)
  pub tokens_utf8 :
      (content : Text) (m : List (Text × Text))
      → env.tokens_of_json content ≡ some m
      → IsUtf8Map env.is_utf8 m
