-- ===== src/Server/Routes.antt =====
-- internal/server/server.go: the routes of Handler, as calls on a service.
pub mod Access
pub mod Contents
pub mod Isolation
pub mod Confined
use secret_git.Prelude.{
  Text, codes, ℕ, zero, suc, ◌+◌, ◌-◌, ◌*◌, ◌/◌, ◌%◌, ◌^◌, ◌<◌, ◌≤◌, ◌≡◌, ◌≢◌, ◌⊎◌, text_beq_iff,
  refl, sym, ap, ◌∙◌, Bool, true, false, ◌&&◌, ◌||◌, not, Option, none, some, List, [], ◌∷◌, ◌++◌,
  if◌then◌else◌, ◌==◌, nat_eq, text_eq, option_eq, Result, ok, err, guard, unless, or_err, length,
  leb, ltb, find_where, count_where, update_where, delete_where, any_where, arith,
}
use secret_git.Prelude.Results.{◌>>=◌, ◌>>◌}
use secret_git.Library.{Library}
use secret_git.Server.Http.{Service, Config, Request, Response}
use secret_git.Server.Handlers.{
  handle_get_blob, handle_head_blob, handle_put_blob, handle_delete_blob, handle_get_manifest,
  handle_put_manifest, handle_get_roster, handle_put_roster, handle_get_keyfile, handle_put_keyfile,
  handle_create_repo, handle_create_invite, handle_disable_account, handle_enable_account,
}
use secret_git.Server.Login.{handle_login, handle_bootstrap, handle_register}

-- The routes below /repos/{repo_id} that serve data.
pub data DataRoute : Type 0 where
  get_blob head_blob put_blob delete_blob : Text → DataRoute
  get_manifest put_manifest get_roster put_roster get_keyfile put_keyfile : DataRoute

-- The other routes, each with what its handler draws and decodes.
pub data Call : Type 0 where
  data_call : DataRoute → Request → (repo_id : Text) → Call
  bootstrap : (salt : Text) → Option (Text × Text × Text) → Call
  register : (salt : Text) → Option (Text × Text × Text) → Call
  login : (drawn ip : Text) → (slot : Bool) → Option (Text × Text) → Call
  create_repo : Request → Option (Text × Text) → Call
  create_invite : (drawn : Text) → Request → (repo_id : Text) → Option Text → Call
  disable_account enable_account : Request → (username : Text) → Call

-- The last argument of authRepo in each handler.
unfoldable pub needs_write : DataRoute → Bool
needs_write (put_blob hash) = true
needs_write (delete_blob hash) = true
needs_write put_manifest = true
needs_write put_roster = true
needs_write put_keyfile = true
needs_write _ = false

module _ ⦃lib : Library⦄ where
  unfoldable pub serve_data : DataRoute → Request → Text → ℕ → Service → Response × Service
  serve_data (get_blob hash) r repo_id now s = handle_get_blob r repo_id hash now s
  serve_data (head_blob hash) r repo_id now s = handle_head_blob r repo_id hash now s
  serve_data (put_blob hash) r repo_id now s = handle_put_blob r repo_id hash now s
  serve_data (delete_blob hash) r repo_id now s = handle_delete_blob r repo_id hash now s
  serve_data get_manifest r repo_id now s = handle_get_manifest r repo_id now s
  serve_data put_manifest r repo_id now s = handle_put_manifest r repo_id now s
  serve_data get_roster r repo_id now s = handle_get_roster r repo_id now s
  serve_data put_roster r repo_id now s = handle_put_roster r repo_id now s
  serve_data get_keyfile r repo_id now s = handle_get_keyfile r repo_id now s
  serve_data put_keyfile r repo_id now s = handle_put_keyfile r repo_id now s

  -- Handler
  unfoldable pub serve : Config → Call → ℕ → Service → Response × Service
  serve cfg (data_call route r repo_id) now s = serve_data route r repo_id now s
  serve cfg (bootstrap salt decoded) now s = handle_bootstrap salt decoded s
  serve cfg (register salt decoded) now s = handle_register salt now decoded s
  serve cfg (login drawn ip slot decoded) now s = handle_login cfg drawn now ip slot decoded s
  serve cfg (create_repo r decoded) now s = handle_create_repo r decoded now s
  serve cfg (create_invite drawn r repo_id decoded) now s =
      handle_create_invite cfg drawn r repo_id decoded now s
  serve cfg (disable_account r username) now s = handle_disable_account r username now s
  serve cfg (enable_account r username) now s = handle_enable_account r username now s
