-- ===== src/Server/Routes/Access.antt =====
-- The data routes of internal/server/server.go and authRepo: who may call, and who may change.
use secret_git.Prelude.{
  Text, ℕ, ◌≡◌, ◌≢◌, refl, ap, true, false, Option, none, some, nat_eq, text_eq, option_eq, Result,
  ok, err, or_err, arith,
}
use secret_git.Prelude.Results.{◌>>=◌, ◌>>◌}
use secret_git.Library.{Library}
use secret_git.Prelude.{==_sound, Bool-cases, inl, inr}
use secret_git.Prelude.Results
use secret_git.Server.{role_writer}
use secret_git.Server.Http.{
  Service, Request, Response, reply, respond, auth_repo, authenticated, permits, bearer,
}
use secret_git.Server.Http.Outcomes.{or_reply-eq-ok}
use secret_git.Server.Accounts.{Session}
use secret_git.Server.Accounts.Revocation.{IsSession, authenticate-IsSession}
use secret_git.Server.Repos.{role_for}
use secret_git.Server.Handlers.{
  handle_get_blob, handle_head_blob, handle_put_blob, handle_delete_blob, handle_get_manifest,
  handle_put_manifest, handle_get_roster, handle_put_roster, handle_get_keyfile, handle_put_keyfile,
}
use secret_git.Server.Routes.{
  DataRoute, get_blob, head_blob, put_blob, delete_blob, get_manifest, put_manifest, get_roster,
  put_roster, get_keyfile, put_keyfile, needs_write, serve_data,
}

module _ ⦃lib : Library⦄ where
  -- Whoever authRepo refuses gets its answer from every data route, and nothing changes.
  serve_data-refused :
      (route : DataRoute) (r : Request) (repo_id : Text) (now : ℕ) (s : Service) (e : Response)
      → auth_repo r repo_id (needs_write route) now s ≡ err e
      → serve_data route r repo_id now s ≡ (e, s)
  unfolding serve_data respond needs_write handle_get_blob handle_head_blob handle_put_blob
      handle_delete_blob handle_get_manifest handle_put_manifest handle_get_roster handle_put_roster
      handle_get_keyfile handle_put_keyfile
  serve_data-refused (get_blob hash) r repo_id now s e h = rw h refl
  serve_data-refused (head_blob hash) r repo_id now s e h = rw h refl
  serve_data-refused (put_blob hash) r repo_id now s e h = rw h refl
  serve_data-refused (delete_blob hash) r repo_id now s e h = rw h refl
  serve_data-refused get_manifest r repo_id now s e h = rw h refl
  serve_data-refused put_manifest r repo_id now s e h = rw h refl
  serve_data-refused get_roster r repo_id now s e h = rw h refl
  serve_data-refused put_roster r repo_id now s e h = rw h refl
  serve_data-refused get_keyfile r repo_id now s e h = rw h refl
  serve_data-refused put_keyfile r repo_id now s e h = rw h refl

  -- A route that does not need a writer leaves the service as it is.
  pub serve_data_reads :
      (route : DataRoute) (r : Request) (repo_id : Text) (now : ℕ) (s : Service)
      → needs_write route ≡ false
      → (serve_data route r repo_id now s).1 ≡ s
  unfolding serve_data respond needs_write handle_get_blob handle_head_blob handle_get_manifest
      handle_get_roster handle_get_keyfile
  serve_data_reads (get_blob hash) r repo_id now s h = ground arith
  serve_data_reads (head_blob hash) r repo_id now s h = ground arith
  serve_data_reads get_manifest r repo_id now s h = ground arith
  serve_data_reads get_roster r repo_id now s h = ground arith
  serve_data_reads get_keyfile r repo_id now s h = ground arith
  serve_data_reads (put_blob hash) r repo_id now s h = cc
  serve_data_reads (delete_blob hash) r repo_id now s h = cc
  serve_data_reads put_manifest r repo_id now s h = cc
  serve_data_reads put_roster r repo_id now s h = cc
  serve_data_reads put_keyfile r repo_id now s h = cc

  -- The caller presents a live token of an enabled account that has the role of a writer.
  pub record IsWriter (r : Request) (repo_id : Text) (now : ℕ) (s : Service) : Type 0 where
    pub token : Text
    pub session : Session
    pub presented : bearer r.authorization ≡ some token
    pub valid : IsSession token now s.db session
    pub writer : role_for session.id repo_id s.db ≡ some role_writer

  permits-writer : (role : Option Text) → permits role true ≡ true → role ≡ some role_writer
  permits-writer none h = cc
  permits-writer (some role) h = cc (==_sound role role_writer h)

  auth_repo-IsWriter :
      (r : Request) (repo_id : Text) (now : ℕ) (s : Service) (acc : Session)
      → auth_repo r repo_id true now s ≡ ok acc
      → IsWriter r repo_id now s
  unfolding auth_repo authenticated
  auth_repo-IsWriter r repo_id now s acc h =
      let (session, found, allowed) = Results.>>=-eq-ok (authenticated r now s) _ h in
      let (token, presented, valid) =
        Results.>>=-eq-ok (or_err (bearer r.authorization) (reply 401)) _ found in
      record {
        token = token;
        session = session;
        presented = Results.or_err-eq-ok _ _ presented;
        valid = authenticate-IsSession token now s.db session (or_reply-eq-ok _ _ valid);
        writer = permits-writer _ (ground (arith, allowed));
      }

  changed-IsWriter :
      (route : DataRoute) (r : Request) (repo_id : Text) (now : ℕ) (s : Service)
      → needs_write route ≡ true
      → (serve_data route r repo_id now s).1 ≢ s
      → (m : Result Response Session) → auth_repo r repo_id true now s ≡ m
      → IsWriter r repo_id now s
  changed-IsWriter route r repo_id now s w changed (ok acc) e =
      auth_repo-IsWriter r repo_id now s acc e
  changed-IsWriter route r repo_id now s w changed (err x) e =
      absurd (changed (ap (λ p. p.1) (serve_data-refused route r repo_id now s x (rw w e))))

  -- If a data route changes anything, the caller presented a live token of an enabled account that
  -- has the role of a writer for the repository.
  pub serve_data-IsWriter :
      (route : DataRoute) (r : Request) (repo_id : Text) (now : ℕ) (s : Service)
      → (serve_data route r repo_id now s).1 ≢ s
      → IsWriter r repo_id now s
  serve_data-IsWriter route r repo_id now s changed = elim (Bool-cases (needs_write route)) [
    | inl w ↦ changed-IsWriter route r repo_id now s w changed (auth_repo r repo_id true now s) refl
    | inr f ↦ absurd (changed (serve_data_reads route r repo_id now s f))
  ]
