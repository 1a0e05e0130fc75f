-- ===== src/Command/Tokens.antt =====
-- cmd/encgit/transport.go: the tokens beside the seed, and the store that a command opens.
pub mod Kept
pub mod Opens
use secret_git.Prelude.{
  Text, codes, ◌≡◌, refl, Bool, true, false, ◌||◌, not, Option, none, some, List, [], ◌∷◌, ◌++◌,
  if◌then◌else◌, ◌==◌, nat_eq, text_eq, option_eq, Result, ok, err, or_err, guard,
}
use secret_git.Prelude.Results.{◌>>=◌, ◌>>◌}
use mathlib.Core.List.{reverse}
use secret_git.Errors.{Error, no_token, bad_tokens, bad_ca_cert, command_io_failed}
use secret_git.Exec.{Exec, continue}
use secret_git.Store.Disk.{FileError, not_exist, io_error}
use secret_git.Store.HttpStore.{HttpStore, trim_slashes, new_http_store}
use secret_git.Store.LocalFs.{open_store}
use secret_git.Command.{Environment, map_get}

unfoldable pub token_key : Text → Text
unfolding trim_slashes
token_key raw_url = reverse (trim_slashes (reverse raw_url))

-- m[key] = value
unfoldable pub map_set : Text → Text → List (Text × Text) → List (Text × Text)
map_set key value [] = (key, value) ∷ []
map_set key value ((k, v) ∷ m) =
    let rest = map_set key value m in if k == key then (key, value) ∷ m else (k, v) ∷ rest

-- What openStore returns: a store behind a server, with the certificates that it pins, or the
-- directory of a local store.
pub data Opened : Type 0 where
  remote : HttpStore → Option Text → Opened
  local : Text → Opened

module _ {D : Type 0} (env : Environment D) where
  unfoldable pub resolve_ca_cert : Text → Text
  resolve_ca_cert flag = if flag == [] then env.ca_cert_env else flag

  -- The certificates in what a read of the file returned.
  abbrev pub certificates_in : Result FileError Text → Result Error (Option Text)
  certificates_in (ok pem) = if env.has_certificates pem then ok (some pem) else err bad_ca_cert
  certificates_in (err e) = err command_io_failed

  -- httpClientForCACert: the pinned certificates, `none` for the system's.
  unfoldable pub http_client_for_ca_cert : Text → D → Result Error (Option Text)
  http_client_for_ca_cert path d =
      if path == [] then ok none else certificates_in (env.files.read_file path d)

  unfoldable pub is_http_url : Text → Bool
  is_http_url s = elim (env.url_scheme s) [
    | none ↦ false
    | some scheme ↦ scheme == codes "http" || scheme == codes "https"
  ]

  unfoldable pub token_store_path : Text → Text
  token_store_path seed_path =
      env.files.join (env.files.dir seed_path ∷ codes "encgit-tokens.json" ∷ [])

  -- The tokens in what a read of their file returned.
  abbrev pub tokens_in : Result FileError Text → Result Error (List (Text × Text))
  tokens_in (ok content) = or_err (env.tokens_of_json content) bad_tokens
  tokens_in (err not_exist) = ok []
  tokens_in (err io_error) = err command_io_failed

  unfoldable pub load_tokens : Text → D → Result Error (List (Text × Text))
  unfolding token_store_path
  load_tokens seed_path d = tokens_in (env.files.read_file (token_store_path seed_path) d)

  unfoldable pub load_token : Text → Text → D → Result Error Text
  unfolding load_tokens map_get token_key
  load_token seed_path raw_url d = do
    m ← load_tokens seed_path d
    ok (map_get (token_key raw_url) m)

  unfoldable pub save_token : Text → Text → Text → Exec D (Unit {0})
  unfolding load_tokens map_set token_key token_store_path
  save_token seed_path raw_url token d =
      continue (load_tokens seed_path d)
        (λ m d.
          let (wrote, d') =
            env.write_file (token_store_path seed_path)
              (env.tokens_json (map_set (token_key raw_url) token m)) d in
          (guard wrote command_io_failed, d'))
        d

  -- openStore
  unfoldable pub open_remote : Text → Text → Text → Text → D → Result Error Opened
  unfolding load_token http_client_for_ca_cert resolve_ca_cert new_http_store
  open_remote store repo_id seed_path ca_cert d = do
    token ← load_token seed_path store d
    guard (not (token == [])) no_token
    pinned ← http_client_for_ca_cert (resolve_ca_cert ca_cert) d
    st ← new_http_store store repo_id token
    ok (remote st pinned)

  unfoldable pub open_any_store : Text → Text → Text → Text → Exec D Opened
  unfolding is_http_url open_remote open_store
  open_any_store store repo_id seed_path ca_cert d =
      let (r, d') = open_store ⦃fs = env.files⦄ store d in
      let opened = continue r (λ root d. (ok (local root), d)) d' in
      if is_http_url store then (open_remote store repo_id seed_path ca_cert d, d) else opened
