-- ===== src/Command/Tokens/Kept.antt =====
-- The tokens of cmd/encgit/transport.go are kept by server.
use secret_git.Prelude.{
  Text, ◌≡◌, refl, Bool, true, false, List, [], ◌∷◌, if◌then◌else◌, ◌==◌, nat_eq, text_eq, Result,
  ok, err, arith, text_beq_iff, Option-cases, Bool-cases, inl, inr, subst,
}
use secret_git.Prelude.Results.{guard-eq-ok}
use secret_git.Errors.{Error, command_io_failed}
use secret_git.Store.Disk.{FileError, not_exist, io_error}
use secret_git.Command.{Environment, EnvironmentLaws, IsUtf8Map, map_get}
use secret_git.Command.Tokens.{
  tokens_in, map_set, token_key, token_store_path, load_tokens, load_token, save_token,
}

-- A token that is set is found again, and the tokens of other servers are kept.
map_get-map_set :
    (key other value : Text) (m : List (Text × Text))
    → map_get other (map_set key value m) ≡ (if key == other then value else map_get other m)
unfolding map_get map_set
map_get-map_set key other value [] = refl
map_get-map_set key other value ((k, v) ∷ m) = ground (
  arith,
  map_get-map_set key other value m,
  text_beq_iff k key,
  text_beq_iff k other,
  text_beq_iff key other,
)

module _ {D : Type 0} (env : Environment D) (laws : EnvironmentLaws D env) where
  map_set-IsUtf8Map :
      (key value : Text) (m : List (Text × Text))
      → env.is_utf8 key ≡ true
      → env.is_utf8 value ≡ true
      → IsUtf8Map env.is_utf8 m
      → IsUtf8Map env.is_utf8 (map_set key value m)
  unfolding map_set
  map_set-IsUtf8Map key value [] k v h = ((k, v), tt)
  map_set-IsUtf8Map key value ((j, w) ∷ m) k v h = elim (Bool-cases (j == key)) [
    | inl t ↦ rw t ((k, v), h.1)
    | inr f ↦ rw f (h.0, map_set-IsUtf8Map key value m k v h.1)
  ]

  -- Tokens that are loaded were decoded, or there are none.
  tokens_in-IsUtf8Map :
      (r : Result FileError Text) (m : List (Text × Text))
      → tokens_in env r ≡ ok m
      → IsUtf8Map env.is_utf8 m
  tokens_in-IsUtf8Map (ok content) m e = elim (Option-cases (env.tokens_of_json content)) [
    | inl n ↦ cc (rw n at e)
    | inr (m', s) ↦
        let same : m' ≡ m = cc (rw s at e) in
        subst (λ x. IsUtf8Map env.is_utf8 x) same (laws.tokens_utf8 content m' s)
  ]
  tokens_in-IsUtf8Map (err not_exist) m e =
      let same : [] ≡ m = cc e in subst (λ x. IsUtf8Map env.is_utf8 x) same tt
  tokens_in-IsUtf8Map (err io_error) m e = cc

  chosen :
      (b : Bool) (x y : Text)
      → Path (Result Error Text) (ok (if b then x else y)) (if b then ok x else ok y)
  chosen true x y = refl
  chosen false x y = refl

  loaded_after :
      (seed_path raw_url other token : Text) (d : D) (r : Result Error (List (Text × Text)))
      → load_tokens env seed_path d ≡ r
      → env.is_utf8 (token_key raw_url) ≡ true
      → env.is_utf8 token ≡ true
      → (save_token env seed_path raw_url token d).0 ≡ ok tt
      → load_token env seed_path other (save_token env seed_path raw_url token d).1 ≡ (
          if token_key raw_url == token_key other
          then ok token
          else load_token env seed_path other d)
  unfolding save_token load_token load_tokens
  loaded_after seed_path raw_url other token d (err x) l k v e = cc (rw l at e)
  loaded_after seed_path raw_url other token d (ok m) l k v e =
      let m' = map_set (token_key raw_url) token m in
      let (read, decoded, same) = laws.tokens_decoded m' (
        map_set-IsUtf8Map (token_key raw_url) token m k v
          (tokens_in-IsUtf8Map (env.files.read_file (token_store_path env seed_path) d) m l)) in
      let content = env.tokens_json m' in
      let wrote = guard-eq-ok _ command_io_failed (rw l at e) in
      rw
        (
          l,
          laws.written (token_store_path env seed_path) content d wrote,
          decoded,
          same (token_key other),
          map_get-map_set (token_key raw_url) (token_key other) token m,
        )
        (chosen (token_key raw_url == token_key other) token (map_get (token_key other) m))

  -- Where saveToken returns without an error for a key and a token in UTF-8, a token that is loaded afterwards is the one saved
  -- if its server is the same but for slashes at the end, and the one it was before otherwise.
  pub load_token-save_token :
      (seed_path raw_url other token : Text) (d : D)
      → env.is_utf8 (token_key raw_url) ≡ true
      → env.is_utf8 token ≡ true
      → (save_token env seed_path raw_url token d).0 ≡ ok tt
      → load_token env seed_path other (save_token env seed_path raw_url token d).1 ≡ (
          if token_key raw_url == token_key other
          then ok token
          else load_token env seed_path other d)
  load_token-save_token seed_path raw_url other token d k v e =
      loaded_after seed_path raw_url other token d _ refl k v e
