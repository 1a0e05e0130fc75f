-- ===== src/Errors.antt =====
-- The errors of the client: one constructor for each error that its packages build or return.
pub data Error : Type 0 where
  -- internal/manifest, internal/roster
  unsupported_type bad_signature bad_sig_encoding bad_manifest_json bad_roster_json : Error
  bad_hex_key bad_key_length : Error
  -- internal/bech32, internal/agekey, internal/identity, internal/crypto
  bech32_data_range bech32_padding bech32_bad_hrp bech32_mixed_case : Error
  age_parse_failed x25519_failed degenerate_seed : Error
  age_encrypt_failed age_decrypt_failed no_recipients bad_repo_key_length bad_payload_length : Error
  -- internal/store and its implementations
  not_found version_conflict invalid_blob_id blob_id_mismatch store_failed : Error
  -- internal/helper
  git_failed bad_repo_id no_known_key generation_zero generation_mismatch : Error
  roster_hash_mismatch signer_not_member pack_id_mismatch : Error
  no_roster roster_equivocation roster_rollback roster_chain_break author_not_trusted : Error
  not_in_roster nothing_to_push push_gave_up : Error
  manifest_rollback manifest_equivocation : Error
  not_a_member oob_fingerprint_required oob_fingerprint_mismatch already_member : Error
  remove_self target_not_member last_member random_failed : Error
  -- cmd/encgit
  bad_config unknown_key no_target no_key bad_seed seed_exists bad_key_size no_token bad_tokens :
      Error
  bad_ca_cert not_http no_genesis keyfile_differs roster_differs unknown_branch no_branch : Error
  many_branches missing_settings command_io_failed login_refused bad_login_json : Error
