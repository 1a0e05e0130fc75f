-- ===== src/Command/Login.antt =====
-- serverLogin and cmdLogin of cmd/encgit/transport.go. A login acts on the states of the files and
-- of the network. net/http's client and the JSON of the two bodies are a parameter.
pub mod Kept
use secret_git.Prelude.{
  Text, codes, ◌≡◌, true, false, not, Option, none, some, [], ◌++◌, if◌then◌else◌, ◌==◌, nat_eq,
  text_eq, Result, ok, err, or_err, guard,
}
use secret_git.Errors.{
  Error, not_http, missing_settings, command_io_failed, login_refused, bad_login_json,
}
use secret_git.Exec.{Exec, lift, ◌>>=◌, ◌>>◌}
use secret_git.Store.HttpStore.{Transport, HttpRequest, HttpResponse, post, exchange}
use secret_git.Command.{Environment}
use secret_git.Command.Genesis.{on_local, on_remote}
use secret_git.Command.Tokens.{
  token_key, is_http_url, http_client_for_ca_cert, resolve_ca_cert, save_token,
}

pub record LoginWire (N : Type 0) : Type 0 where
  -- The client whose pinned certificates are those, or the system's.
  pub client : Option Text → Transport N
  -- encoding/json: the object of a username and a password, and an object's token
  pub credentials_json : Text → Text → Text
  pub token_of_json : Text → Option Text

module _ {N : Type 0} (wire : LoginWire N) where
  unfoldable pub login_request : Text → Text → Text → HttpRequest
  unfolding token_key
  login_request base_url username password = record {
    method = post;
    url = token_key base_url ++ codes "/auth/login";
    authorization = none;
    content_type = some (codes "application/json");
    if_match = none;
    new_version = none;
    body = some (wire.credentials_json username password);
  }

  -- The token in a body; it is empty where the object has none.
  unfoldable pub expect_token : HttpResponse → Result Error Text
  expect_token r =
      let token : Result Error Text = elim r.body [
        | none ↦ err bad_login_json
        | some b ↦ or_err (wire.token_of_json b) bad_login_json
      ] in
      if r.status == 200 then token else err login_refused

  unfoldable pub server_login : Option Text → Text → Text → Text → Exec N Text
  unfolding exchange login_request expect_token
  server_login pinned base_url username password =
      exchange ⦃net = wire.client pinned⦄ (login_request base_url username password) expect_token

module _ {D N : Type 0} (env : Environment D) (wire : LoginWire N) where
  -- cmdLogin, from the flags that were parsed and the password that readPassword returned, `none`
  -- where it failed.
  unfoldable pub cmd_login : Text → Text → Text → Text → Option Text → Exec (D × N) (Unit {0})
  unfolding on_local on_remote server_login save_token is_http_url http_client_for_ca_cert
      resolve_ca_cert
  cmd_login seed_path ca_cert server_url username password = do
    lift (guard (not (seed_path == [])) missing_settings)
    lift (guard (is_http_url env server_url) not_http)
    pinned ← on_local (λ d. (http_client_for_ca_cert env (resolve_ca_cert env ca_cert) d, d))
    pw ← lift (or_err password command_io_failed)
    token ← on_remote (server_login wire pinned server_url username pw)
    on_local (save_token env seed_path server_url token)
