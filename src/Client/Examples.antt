-- ===== src/Client/Examples.antt =====
-- The theorems about the client at concrete inputs: one member, one manifest, a server that holds
-- both and never changes.
use secret_git.Prelude.{
  codes, false, none, some, [], ◌∷◌, ◌++◌, if◌then◌else◌, ◌==◌, nat_eq, text_eq, Result, ok, err,
}
use secret_git.Exec.{pure, ◌>>=◌}
use secret_git.Hex.{hex_encode, sha256_hex}
use secret_git.Manifest
use secret_git.Manifest.{Manifest}
use secret_git.Roster
use secret_git.Roster.{
  Roster, Member, find_by_fingerprint, ed_pub, binding_hash, fingerprint, has_fingerprint,
  x_pub_bytes,
}
use secret_git.Keys.{
  Identity, PackKeys, derive_pack_keys, unwrap_repo_key, decrypt, encrypt, wrap_repo_key,
  recipient_from_public, fingerprint_hex,
}
use secret_git.LocalState.{load, has_key, add_key}
use secret_git.Store.{Store}
use secret_git.Git.{Git, update_ref, list_head_refs, rev_parse, generate_pack}
use secret_git.Client.{
  Decoders, Engine, Current, no_current, parse_manifest, parse_roster, verify_manifest_with_roster,
  on_server, on_git, draw, load_state, save_state, check_keyfile_generation, decrypt_pack,
  refresh_pack_keys, load_current, import_pack, import_packs, blob_bytes,
}
use secret_git.Samples.{toy_library}
use secret_git.Prelude.{replicate, text_beq, refl, ◌≡◌, ◌≤◌}
use secret_git.Roster.{find_member}
use secret_git.Keys.{put_be}
use secret_git.Client.{verify_signer}
use secret_git.Client.Trust.{load_trusted_roster}
use secret_git.Client.Trust.Chain.{Trusts, load_trusted_roster-Trusts}
use secret_git.Prelude.{Text, ◌≢◌, ◌↔◌}
use secret_git.Keys.{fingerprint_hex}
use secret_git.Client.Members.{check_removal, check_new_member, members_except}
use secret_git.Client.Members.Gates.{IsRemoval, check_removal-IsRemoval, check_new_member_iff}
use secret_git.Client.Fetch.{fetch}
use secret_git.Client.Fetch.Accepts.{manifest_pin}
use secret_git.Client.Fetch.Safety.{Fetched, fetch-Fetched, version-le-fetch}
use secret_git.Exec.Ends.{Ends}
use secret_git.Command.Runs.{cmd_fetch}
use secret_git.Command.Runs.Pins.{cmd_fetch-Fetched}

abbrev value_or {ℓ} : {A : Type ℓ} → A → {E : Type ℓ} → Result E A → A
value_or a (ok b) = b
value_or a (err e) = a

abbrev alice : Member
alice = record {
  name = codes "alice";
  x25519_pub = hex_encode (replicate 32 1);
  ed25519_pub = hex_encode (replicate 32 2);
}

abbrev unsigned_roster : Roster
unsigned_roster = record {
  repo_id = codes "r";
  version = 0;
  prev_roster_hash = none;
  members = alice ∷ [];
  author_key_id = value_or [] (fingerprint alice);
  repo_key_generation = 1;
  sig = [];
}

abbrev sample_roster : Roster
sample_roster = value_or unsigned_roster (Roster.sign (replicate 32 2) unsigned_roster)

abbrev unsigned_manifest : Manifest
unsigned_manifest = record {
  repo_id = codes "r";
  version = 1;
  prev_manifest_hash = none;
  refs = (codes "refs/heads/main", codes "abc") ∷ [];
  packs = [];
  pusher_key_id = value_or [] (fingerprint alice);
  roster_hash = value_or [] (binding_hash unsigned_roster);
  sig = [];
}

abbrev sample_manifest : Manifest
sample_manifest = value_or unsigned_manifest (Manifest.sign (replicate 32 2) unsigned_manifest)

-- Two texts stand for the two documents.
instance abbrev sample_decoders : Decoders
sample_decoders = record {
  manifest_json = λ t. if t == codes "m" then some sample_manifest else none;
  roster_json = λ t. if t == codes "r" then some sample_roster else none;
}

instance abbrev sample_store : Store (Unit {0})
sample_store = record {
  put_blob = λ _ _. pure tt;
  get_blob = λ _. pure [];
  has_blob = λ _. pure false;
  delete_blob = λ _. pure tt;
  get_manifest = pure (some (codes "m"), 1);
  cas_manifest = λ _ _ _. pure tt;
  get_roster = pure (some (codes "r"), 0);
  cas_roster = λ _ _ _. pure tt;
  put_keyfile = λ _. pure tt;
  get_keyfile = pure (put_be 8 1 ++ replicate 32 7);
}

instance abbrev sample_git : Git (Unit {0})
sample_git = record { exec = λ _ _ g. (some [], g) }

abbrev sample_engine : Engine (Unit {0}) (Unit {0})
sample_engine = record {
  server = tt;
  file = none;
  git_dir = tt;
  entropy = [];
  member = record {
    seed = [];
    scalar_x = [];
    pub_x = replicate 32 1;
    age_id = [];
    ed_priv = replicate 32 2;
    ed_pub = replicate 32 2;
    fpr = [];
  };
  repo_id = codes "r";
  repo_hex = codes "72";
  repo_key = [];
  kf_generation = 0;
  pack = record { identity = []; recipient = [] };
  known_keys = [];
  pack_cache = [];
}

verifies : verify_manifest_with_roster sample_manifest sample_roster ≡ ok tt
unfolding verify_manifest_with_roster verify_signer find_by_fingerprint binding_hash
    Roster.signing_bytes Roster.fields Roster.sign fingerprint hex_encode
    secret_git.Jcs.canonical_json text_beq Manifest.sign Manifest.signing_bytes sha256_hex
    secret_git.Jcs.escape_all secret_git.Jcs.escape find_member has_fingerprint Manifest.verify
verifies = refl

-- The run that the next examples are about ends with the manifest pinned.
fetch_pins : (load (fetch sample_engine).1.file).version ≡ 1
unfolding fetch ◌>>=◌ refresh_pack_keys on_server unwrap_repo_key decrypt put_be derive_pack_keys
    secret_git.Keys.identity_from_scalar secret_git.Bech32.encode text_beq
    secret_git.Client.remember_key load_state has_key save_state load_trusted_roster decrypt_pack
    secret_git.Client.or_next parse_roster add_key secret_git.Client.Trust.first_use
    secret_git.Client.Trust.verify_roster_self_consistent find_by_fingerprint find_member
    Roster.sign Roster.signing_bytes Roster.fields fingerprint hex_encode
    secret_git.Jcs.canonical_json has_fingerprint secret_git.Client.Trust.verify_author
    Roster.verify secret_git.Jcs.escape_all secret_git.Jcs.escape secret_git.Client.Trust.advance
    secret_git.Client.Trust.pin_roster secret_git.Client.Fetch.fetch_trusting
    check_keyfile_generation secret_git.Client.check_generation secret_git.Keys.get_be
    secret_git.Client.Fetch.fetch_manifest parse_manifest verify_manifest_with_roster binding_hash
    Manifest.sign Manifest.signing_bytes sha256_hex verify_signer Manifest.verify Manifest.fields
    secret_git.Client.Fetch.check_freshness secret_git.Client.Fetch.take_in
    secret_git.Client.Fetch.pin_manifest import_packs secret_git.Client.Fetch.update_refs
    secret_git.Client.on_git update_ref secret_git.Git.run_git secret_git.Client.Trust.pinned
fetch_pins = refl

load_trusted_roster-Trusts_example :
    Ends
      (λ p t. Trusts (load sample_engine.file) p (load t.file))
      (λ t. t.file ≡ sample_engine.file)
      (load_trusted_roster sample_engine)
load_trusted_roster-Trusts_example = load_trusted_roster-Trusts sample_engine

fetch-Fetched_example :
    Ends
      (λ _ t. Fetched (load sample_engine.file) (load t.file))
      (λ t. manifest_pin (load t.file) ≡ manifest_pin (load sample_engine.file))
      (fetch sample_engine)
fetch-Fetched_example = fetch-Fetched sample_engine

version-le-fetch_example :
    (load sample_engine.file).version ≤ (load (fetch sample_engine).1.file).version
version-le-fetch_example = version-le-fetch sample_engine

cmd_fetch-Fetched_example :
    Ends
      (λ _ t. Fetched (load sample_engine.file) (load t.file))
      (λ t. manifest_pin (load t.file) ≡ manifest_pin (load sample_engine.file))
      (cmd_fetch (codes "72") sample_engine)
cmd_fetch-Fetched_example = cmd_fetch-Fetched (codes "72") sample_engine

abbrev bob : Member
bob = record {
  name = codes "bob";
  x25519_pub = hex_encode (replicate 32 3);
  ed25519_pub = hex_encode (replicate 32 4);
}

abbrev pair_roster : Roster
pair_roster = record unsigned_roster { members = alice ∷ bob ∷ [] }

abbrev bob_print : Text
bob_print = value_or [] (fingerprint bob)

removes : check_removal sample_engine.member pair_roster bob_print ≡ ok (alice ∷ [])
unfolding check_removal find_by_fingerprint text_beq fingerprint hex_encode fingerprint_hex
    find_member has_fingerprint members_except
removes = refl

check_removal-IsRemoval_example : IsRemoval sample_engine.member pair_roster bob_print (alice ∷ [])
check_removal-IsRemoval_example =
    check_removal-IsRemoval sample_engine.member pair_roster bob_print (alice ∷ []) removes

check_new_member_iff_example : (check_new_member sample_roster bob bob_print ≡ ok tt) ↔ (
    (bob_print ≢ [])
    × (fingerprint bob ≡ ok bob_print)
    × (find_by_fingerprint bob_print sample_roster ≡ none))
check_new_member_iff_example = check_new_member_iff sample_roster bob bob_print
