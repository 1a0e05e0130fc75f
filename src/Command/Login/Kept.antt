-- ===== src/Command/Login/Kept.antt =====
-- What a login of cmd/encgit/transport.go leaves behind.
use secret_git.Prelude.{
  Text, codes, ◌≡◌, refl, Option, none, some, true, ◌++◌, Option-cases, Bool-cases, inl, inr, ap,
  ◌∙◌, ==_sound, arith, if◌then◌else◌, ◌==◌, nat_eq, text_eq, Result, ok, err, guard, not, [],
}
use secret_git.Errors.{Error, missing_settings, not_http}
use secret_git.Exec.{Exec, continue, lift, ◌>>=◌}
use secret_git.Exec.Ends.{Ends, returns, fails, Ends-lift, Ends-ok}
use secret_git.Command.{Environment, EnvironmentLaws}
use secret_git.Command.Genesis.{on_local, on_remote}
use secret_git.Store.HttpStore.{HttpRequest, HttpResponse, post, exchange, responded}
use secret_git.Command.Login.{LoginWire, login_request, expect_token, server_login, cmd_login}
use secret_git.Command.Tokens.{
  token_key, is_http_url, http_client_for_ca_cert, resolve_ca_cert, save_token, load_token,
}
use secret_git.Command.Tokens.Kept.{load_token-save_token}

module _ {L S A B : Type 0} {R : B → S → Type 0} where
  -- A step on a part of the state: what follows may use what the step returned.
  step :
      (p : Result Error A × L) (put : L → S) (f : A → Exec S B)
      → ((a : A) → p.0 ≡ ok a → Ends R (λ _. Unit {0}) (f a (put p.1)))
      → Ends R (λ _. Unit {0}) (continue p.0 f (put p.1))
  step (ok a, l) put f k = k a refl
  step (err e, l) put f k = fails tt

module _ {L S A : Type 0} {Q : A → S → Type 0} where
  last :
      (p : Result Error A × L) (put : L → S)
      → ((a : A) → p.0 ≡ ok a → Q a (put p.1))
      → Ends Q (λ _. Unit {0}) (p.0, put p.1)
  last (ok a, l) put k = returns (k a refl)
  last (err e, l) put k = fails tt

module _ {D N : Type 0} (env : Environment D) (laws : EnvironmentLaws D env)
    (wire : LoginWire N) where
  -- What the documentation of encoding/json says of the token: a decoded string is valid UTF-8.
  pub record LoginLaws : Type 0 where
    pub token_utf8 :
        (body token : Text) → wire.token_of_json body ≡ some token → env.is_utf8 token ≡ true

  -- The login request for an address without slashes at its end.
  abbrev pub login_post : Text → Text → Text → HttpRequest
  login_post address username password = record {
    method = post;
    url = address ++ codes "/auth/login";
    authorization = none;
    content_type = some (codes "application/json");
    if_match = none;
    new_version = none;
    body = some (wire.credentials_json username password);
  }

  -- The files and the network after a login that returned without an error.
  pub record IsLoggedIn (seed_path ca_cert server_url username password : Text)
      (before after : D × N) : Type 0 where
    pub pinned : Option Text
    pub token : Text
    pub trusts : http_client_for_ca_cert env (resolve_ca_cert env ca_cert) before.0 ≡ ok pinned
    pub etag : Text
    pub body : Text
    pub answered :
        (wire.client pinned).send (login_post (token_key server_url) username password) before.1
        ≡ (some (record { status = 200; etag = etag; body = some body }), after.1)
    pub decoded : wire.token_of_json body ≡ some token
    pub kept :
        (other : Text)
        → load_token env seed_path other after.0 ≡ (
            if token_key server_url == token_key other
            then ok token
            else load_token env seed_path other before.0)

  -- What a login that gives a token went through.
  record Answered (pinned : Option Text) (server_url username password token : Text)
      (before after : N) : Type 0 where
    etag : Text
    body : Text
    sent :
        (wire.client pinned).send (login_post (token_key server_url) username password) before
        ≡ (some (record { status = 200; etag = etag; body = some body }), after)
    decoded : wire.token_of_json body ≡ some token

  response_of :
      (r : HttpResponse) (b : Text)
      → r.status ≡ 200
      → r.body ≡ some b
      → r ≡ record { status = 200; etag = r.etag; body = some b }
  response_of r b s e = ground arith

  decoded_from :
      (r : HttpResponse) (b token : Text)
      → r.body ≡ some b
      → expect_token wire r ≡ ok token
      → (r.status ≡ 200) × (wire.token_of_json b ≡ some token)
  unfolding expect_token
  decoded_from r b token e h = elim (Bool-cases (r.status == 200)) [
    | inr f ↦ cc (rw f at h)
    | inl t ↦ elim (Option-cases (wire.token_of_json b)) [
      | inl z ↦ cc (rw (t, e, z) at h)
      | inr (u, z) ↦
          let same : u ≡ token = cc (rw (t, e, z) at h) in
          (==_sound r.status 200 t, z ∙ ap some same)
    ]
  ]

  no_body : (r : HttpResponse) (token : Text) → r.body ≡ none → expect_token wire r ≡ ok token → ⊥
  unfolding expect_token
  no_body r token e h = elim (Bool-cases (r.status == 200)) [
    | inr f ↦ cc (rw f at h)
    | inl t ↦ cc (rw (t, e) at h)
  ]

  sent-Answered :
      (pinned : Option Text) (server_url username password token : Text) (n : N)
      (p : Option HttpResponse × N)
      → (wire.client pinned).send (login_post (token_key server_url) username password) n ≡ p
      → responded (expect_token wire) p.0 ≡ ok token
      → Answered pinned server_url username password token n p.1
  sent-Answered pinned server_url username password token n (none, n') s h = cc
  sent-Answered pinned server_url username password token n (some r, n') s h =
      elim (Option-cases r.body) [
        | inl z ↦ absurd (no_body r token z h)
        | inr (b, z) ↦
            let d = decoded_from r b token z h in
            record {
              etag = r.etag;
              body = b;
              sent = s ∙ ap (λ (x : HttpResponse). (some x, n')) (response_of r b d.0 z);
              decoded = d.1;
            }
      ]

  server_login-Answered :
      (pinned : Option Text) (server_url username password token : Text) (n : N)
      → (server_login wire pinned server_url username password n).0 ≡ ok token
      → Answered pinned server_url username password token n
          (server_login wire pinned server_url username password n).1
  unfolding server_login exchange login_request
  server_login-Answered pinned server_url username password token n e =
      let q = login_post (token_key server_url) username password in
      elim (Bool-cases ((wire.client pinned).accepts q)) [
        | inr f ↦ cc (rw f at e)
        | inl t ↦
            rw t (sent-Answered pinned server_url username password token n _ refl (rw t at e))
      ]

  login_Ends :
      (seed_path ca_cert server_url username password : Text) (d : D) (n : N)
      → LoginLaws
      → env.is_utf8 (token_key server_url) ≡ true
      → Ends
          (λ (_ : Unit {0}) s'. IsLoggedIn seed_path ca_cert server_url username password (d, n) s')
          (λ _. Unit {0})
          (cmd_login env wire seed_path ca_cert server_url username (some password) (d, n))
  unfolding cmd_login on_local on_remote lift ◌>>=◌
  login_Ends seed_path ca_cert server_url username password d n l u =
      Ends-lift (guard (not (seed_path == [])) missing_settings) _ (d, n) tt
        (λ _ _.
          Ends-lift (guard (is_http_url env server_url) not_http) _ (d, n) tt
            (λ _ _.
              step (http_client_for_ca_cert env (resolve_ca_cert env ca_cert) d, d) (λ x. (x, n)) _
                (λ pinned t.
                  step (server_login wire pinned server_url username password n) (λ x. (d, x)) _
                    (λ token t'.
                      last (save_token env seed_path server_url token d)
                        (λ x. (x, (server_login wire pinned server_url username password n).1))
                        (λ _ saved.
                          let a =
                            server_login-Answered pinned server_url username password token n t' in
                          record {
                            pinned = pinned;
                            token = token;
                            trusts = t;
                            etag = a.etag;
                            body = a.body;
                            answered = a.sent;
                            decoded = a.decoded;
                            kept = λ other.
                                load_token-save_token env laws seed_path server_url other token d u
                                  (l.token_utf8 a.body token a.decoded) saved;
                          })))))

  -- Where a login with a password to an address in UTF-8 returns without an error, the client that
  -- trusts the configured certificates posted the username and the password once to the server's
  -- /auth/login and nothing else, the answer had status 200, and the token decoded from its body
  -- is the one loaded afterwards for the server (slashes at the end of its address apart); for
  -- every other server what is loaded is what was loaded before. Files and JSON behave as
  -- documented.
  pub cmd_login-IsLoggedIn :
      (seed_path ca_cert server_url username password : Text) (d : D) (n : N)
      → LoginLaws
      → env.is_utf8 (token_key server_url) ≡ true
      → (cmd_login env wire seed_path ca_cert server_url username (some password) (d, n)).0 ≡ ok tt
      → IsLoggedIn seed_path ca_cert server_url username password
          (d, n)
          (cmd_login env wire seed_path ca_cert server_url username (some password) (d, n)).1
  cmd_login-IsLoggedIn seed_path ca_cert server_url username password d n l u e =
      Ends-ok (login_Ends seed_path ca_cert server_url username password d n l u) e
