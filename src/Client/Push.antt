-- ===== src/Client/Push.antt =====
-- internal/helper/engine.go: Push. Maps are lists of entries, in the order in
-- which their keys were first put.
use secret_git.Prelude.{
  Text, ℕ, zero, suc, ◌+◌, ◌%◌, ◌^◌, Bool, false, ◌||◌, Option, none, some, List, [], ◌∷◌, ◌++◌,
  if◌then◌else◌, ◌==◌, nat_eq, text_eq, Result, ok, err, unless, or_err, length,
}
use secret_git.Exec.{Exec, pure, raise, lift, gets, attempt, ◌>>=◌, ◌>>◌}
use secret_git.Library.{Library}
use secret_git.Hex.{sha256_hex}
use secret_git.Manifest
use secret_git.Manifest.{Manifest}
use secret_git.Roster.{Roster, find_by_fingerprint, binding_hash}
use secret_git.Keys.{encrypt, fingerprint_hex}
use secret_git.LocalState.{State, add_pack}
use secret_git.Store.{Store}
use secret_git.Git.{Git, list_head_refs, rev_parse, generate_pack}
use secret_git.Client.{
  Decoders, Engine, Current, on_server, on_git, draw, load_state, save_state,
  check_keyfile_generation, refresh_pack_keys, load_current, import_packs,
}
use secret_git.Errors.{Error, version_conflict, not_in_roster, nothing_to_push, push_gave_up}
use secret_git.Client.Trust.{load_trusted_roster}
use secret_git.Client.Fetch.{pin_manifest}

-- m[k] = v
unfoldable pub map_put : Text → Text → List (Text × Text) → List (Text × Text)
map_put k v [] = (k, v) ∷ []
map_put k v ((j, w) ∷ m) = let rest = map_put k v m in if j == k then (k, v) ∷ m else (j, w) ∷ rest

-- for k, v := range from { to[k] = v }
unfoldable pub map_put_all : List (Text × Text) → List (Text × Text) → List (Text × Text)
unfolding map_put
map_put_all [] to = to
map_put_all ((k, v) ∷ from) to = map_put_all from (map_put k v to)

unfoldable pub seen_before : Text → List Text → Bool
seen_before v [] = false
seen_before v (w ∷ ws) = w == v || seen_before v ws

-- uniqueValues: the values in order of their first occurrence.
unfoldable pub unique_values_from : List Text → List (Text × Text) → List Text
unfolding seen_before
unique_values_from seen [] = []
unique_values_from seen ((k, v) ∷ m) =
    let old = unique_values_from seen m in
    let fresh = unique_values_from (v ∷ seen) m in if seen_before v seen then old else v ∷ fresh

unfoldable pub unique_values : List (Text × Text) → List Text
unfolding unique_values_from
unique_values m = unique_values_from [] m

-- curRefsMap, curPacks, prevHashPtr
unfoldable pub cur_refs : Current → List (Text × Text)
cur_refs c = elim c.manifest [ none ↦ [] | some m ↦ m.refs ]

unfoldable pub cur_packs : Current → List Text
cur_packs c = elim c.manifest [ none ↦ [] | some m ↦ m.packs ]

unfoldable pub prev_hash : Current → Option Text
prev_hash c = elim c.manifest [ none ↦ none | some m ↦ some c.hash ]

-- maxPushRetries
abbrev pub max_push_retries : ℕ
max_push_retries = 16

-- A version after this one, as a uint64.
abbrev pub next_version : ℕ → ℕ
next_version v = (v + 1) % 2 ^ 64

module _ {S G : Type 0} ⦃git : Git G⦄ where
  -- The refs that are pushed: those that were asked for, or every head.
  unfoldable pub refs_to_push : List Text → Exec (Engine S G) (List Text)
  refs_to_push (r ∷ rs) = pure (r ∷ rs)
  refs_to_push [] = do
    heads ← on_git list_head_refs
    lift (unless (length heads == 0) nothing_to_push)
    pure heads

  unfoldable pub resolve_refs :
      List Text → List (Text × Text) → Exec (Engine S G) (List (Text × Text))
  resolve_refs [] want = pure want
  resolve_refs (r ∷ rs) want = do sha ← on_git (rev_parse r); resolve_refs rs (map_put r sha want)

module _ {S G : Type 0} ⦃lib : Library⦄ where
  -- crypto.Encrypt, with bytes that are drawn
  unfoldable pub encrypt_to : Text → List Text → Exec (Engine S G) Text
  encrypt_to plain recipients = do drawn ← draw; lift (encrypt drawn plain recipients)

  -- Sign, Marshal and Encrypt: the plaintext of the signed manifest, and its blob.
  unfoldable pub seal_manifest : Manifest → Text → Exec (Engine S G) (Text × Text)
  seal_manifest m recipient = do
    id ← gets (λ e. e.member)
    signed ← lift (Manifest.sign id.ed_priv m)
    plain ← lift (Manifest.canonical_bytes signed)
    blob ← encrypt_to plain (recipient ∷ [])
    pure (plain, blob)

module _ {S G : Type 0} ⦃lib : Library⦄ ⦃store : Store S⦄ where
  -- The pack of new objects, if there is one: it is uploaded and recorded.
  unfoldable pub upload_pack :
      Option Text → List Text → State → Exec (Engine S G) (List Text × State)
  upload_pack none packs st = pure (packs, st)
  upload_pack (some raw) packs st = do
    keys ← gets (λ e. e.pack)
    blob ← encrypt_to raw (keys.recipient ∷ [])
    let pack_id = sha256_hex blob
    on_server (store.put_blob pack_id blob)
    pure (packs ++ (pack_id ∷ []), add_pack st pack_id)

module _ {S G : Type 0} ⦃lib : Library⦄ ⦃dec : Decoders⦄ ⦃store : Store S⦄ ⦃git : Git G⦄ where
  -- What the outcome of the swap means: a conflict is tried again, with the packs that are now
  -- recorded; another error ends the push; success moves the pin.
  unfoldable pub after_swap :
      Result Error (Unit {0})
      → State
      → ℕ
      → Text
      → Exec (Engine S G) (Unit {0})
      → Exec (Engine S G) (Unit {0})
  after_swap (ok _) st version hash again = save_state (pin_manifest st version hash)
  after_swap (err version_conflict) st version hash again = do save_state st; again
  after_swap (err e) st version hash again = raise e

  -- The body of the retry loop.
  unfoldable pub push_attempt :
      Roster
      → Text
      → List (Text × Text)
      → State
      → (State → Exec (Engine S G) (Unit {0}))
      → Exec (Engine S G) (Unit {0})
  push_attempt trusted binding want_refs st again = do
    cur ← load_current trusted
    st₁ ← import_packs (cur_packs cur) st
    let new_refs = map_put_all want_refs (map_put_all (cur_refs cur) [])
    raw ← on_git (generate_pack (unique_values want_refs) (unique_values (cur_refs cur)))
    (new_packs, st₂) ← upload_pack raw (cur_packs cur) st₁
    repo ← gets (λ e. e.repo_hex)
    id ← gets (λ e. e.member)
    keys ← gets (λ e. e.pack)
    (plain, blob) ←
        seal_manifest
          (record {
            repo_id = repo;
            version = next_version cur.version;
            prev_manifest_hash = prev_hash cur;
            refs = new_refs;
            packs = new_packs;
            pusher_key_id = fingerprint_hex id;
            roster_hash = binding;
            sig = [];
          })
          keys.recipient
    outcome ← attempt (on_server (store.cas_manifest cur.version blob (next_version cur.version)))
    after_swap outcome st₂ (next_version cur.version) (sha256_hex plain) (again st₂)

  -- The retry loop: the first argument counts the attempts that are left.
  unfoldable pub push_loop :
      ℕ → Roster → Text → List (Text × Text) → State → Exec (Engine S G) (Unit {0})
  push_loop zero trusted binding want_refs st = raise push_gave_up
  push_loop (suc n) trusted binding want_refs st =
      push_attempt trusted binding want_refs st (push_loop n trusted binding want_refs)

  unfoldable pub push : List Text → Exec (Engine S G) (Unit {0})
  push refs = do
    refresh_pack_keys
    (trusted, _) ← load_trusted_roster
    check_keyfile_generation trusted
    id ← gets (λ e. e.member)
    _ ← lift (or_err (find_by_fingerprint (fingerprint_hex id) trusted) not_in_roster)
    binding ← lift (binding_hash trusted)
    named ← refs_to_push refs
    want_refs ← resolve_refs named []
    st ← load_state
    push_loop max_push_retries trusted binding want_refs st
