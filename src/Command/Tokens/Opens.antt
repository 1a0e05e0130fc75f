-- ===== src/Command/Tokens/Opens.antt =====
-- What openStore of cmd/encgit/transport.go opens for a server.
use secret_git.Prelude.{
  Text, ◌≡◌, true, false, Option, some, [], ◌==◌, nat_eq, text_eq, Result, ok, err,
}
use secret_git.Prelude.Results
use secret_git.Prelude.Results.{◌>>=◌, ◌>>◌}
use secret_git.Errors.{Error}
use secret_git.Store.HttpStore.{HttpStore}
use secret_git.Command.{Environment}
use secret_git.Command.Tokens.{resolve_ca_cert, load_token}

module _ {D : Type 0} (env : Environment D) where
  -- The token and the certificates of a store behind a server.
  pub record IsSecured (seed_path store ca_cert : Text) (d : D) (st : HttpStore)
      (pinned : Option Text) : Type 0 where
    pub token_saved : load_token env seed_path store d ≡ ok st.token
    pub token_set : (st.token == []) ≡ false
    pub pins :
        (resolve_ca_cert env ca_cert == []) ≡ false
        → (pem : Text) × (pinned ≡ some pem)
          × (env.files.read_file (resolve_ca_cert env ca_cert) d ≡ ok pem)
          × (env.has_certificates pem ≡ true)

  abbrev token_in : Text → Result Error HttpStore → Text
  token_in other (ok st) = st.token
  token_in other (err e) = other
