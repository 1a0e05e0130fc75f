-- ===== src/Store/Ideal.antt =====
-- internal/store/store.go: what the comments of the interface promise, as a store on plain
-- contents.
use secret_git.Prelude.{
  Text, ℕ, Bool, true, false, not, Option, none, some, if◌then◌else◌, ◌==◌, nat_eq, text_eq, Result,
  ok, err, or_err,
}
use secret_git.Library.{Library}
use secret_git.Errors.{Error, not_found, version_conflict, blob_id_mismatch}
use secret_git.Exec.{Exec}
use secret_git.Hex.{sha256_hex}
use secret_git.Store.{Store}

-- A pointer is its blob, if any, and its version, which is 0 where there is none.
pub record Contents : Type 0 where
  pub blobs : Text → Option Text
  pub manifest : Option Text × ℕ
  pub roster : Option Text × ℕ
  pub keyfile : Option Text

abbrev pub no_contents : Contents
no_contents = record {
  blobs = λ id. none;
  manifest = (none, 0);
  roster = (none, 0);
  keyfile = none;
}

abbrev pub with_blob : Text → Option Text → Contents → Contents
with_blob id content c = record c { blobs = λ i. if i == id then content else c.blobs i }

abbrev pub is_present : {A : Type 0} → Option A → Bool
is_present none = false
is_present (some a) = true

-- The operations of Store as data, and their answers.
pub data Op : Type 0 where
  put_blob : (id content : Text) → Op
  get_blob has_blob delete_blob : (id : Text) → Op
  get_manifest get_roster get_keyfile : Op
  cas_manifest cas_roster : (expected : ℕ) → (blob : Text) → (new : ℕ) → Op
  put_keyfile : (content : Text) → Op

pub data Answer : Type 0 where
  done : Answer
  bytes : Text → Answer
  present : Bool → Answer
  pointer : Option Text × ℕ → Answer

abbrev pub answered : {A S : Type 0} → (A → Answer) → Result Error A × S → Result Error Answer × S
answered f (ok a, s) = (ok (f a), s)
answered f (err e, s) = (err e, s)

abbrev pub perform : {S : Type 0} → Store S → Op → Exec S Answer
perform st (put_blob id content) s = answered (λ _. done) (st.put_blob id content s)
perform st (get_blob id) s = answered bytes (st.get_blob id s)
perform st (has_blob id) s = answered present (st.has_blob id s)
perform st (delete_blob id) s = answered (λ _. done) (st.delete_blob id s)
perform st get_manifest s = answered pointer (st.get_manifest s)
perform st get_roster s = answered pointer (st.get_roster s)
perform st get_keyfile s = answered bytes (st.get_keyfile s)
perform st (cas_manifest expected blob new) s =
    answered (λ _. done) (st.cas_manifest expected blob new s)
perform st (cas_roster expected blob new) s =
    answered (λ _. done) (st.cas_roster expected blob new s)
perform st (put_keyfile content) s = answered (λ _. done) (st.put_keyfile content s)

module _ ⦃lib : Library⦄ where
  -- What each operation answers and leaves by the comments of the interface.
  unfoldable pub promised : Op → Contents → Result Error Answer × Contents
  unfolding sha256_hex
  promised (put_blob id content) c =
      if not (sha256_hex content == id)
      then (err blob_id_mismatch, c)
      else if is_present (c.blobs id)
      then (ok done, c)
      else (ok done, with_blob id (some content) c)
  promised (get_blob id) c = elim (c.blobs id) [
    | none ↦ (err not_found, c)
    | some content ↦ (ok (bytes content), c)
  ]
  promised (has_blob id) c = (ok (present (is_present (c.blobs id))), c)
  promised (delete_blob id) c = (ok done, with_blob id none c)
  promised get_manifest c = (ok (pointer c.manifest), c)
  promised get_roster c = (ok (pointer c.roster), c)
  promised get_keyfile c = elim c.keyfile [
    | none ↦ (err not_found, c)
    | some content ↦ (ok (bytes content), c)
  ]
  promised (cas_manifest expected blob new) c =
      if c.manifest.1 == expected
      then (ok done, record c { manifest = (some blob, new) })
      else (err version_conflict, c)
  promised (cas_roster expected blob new) c =
      if c.roster.1 == expected
      then (ok done, record c { roster = (some blob, new) })
      else (err version_conflict, c)
  promised (put_keyfile content) c = (ok done, record c { keyfile = some content })

  -- The interface over plain contents.
  unfoldable pub contents_store : Store Contents
  unfolding sha256_hex
  contents_store = record {
    put_blob = λ id content c.
        if not (sha256_hex content == id)
        then (err blob_id_mismatch, c)
        else (ok tt, if is_present (c.blobs id) then c else with_blob id (some content) c);
    get_blob = λ id c. (or_err (c.blobs id) not_found, c);
    has_blob = λ id c. (ok (is_present (c.blobs id)), c);
    delete_blob = λ id c. (ok tt, with_blob id none c);
    get_manifest = λ c. (ok c.manifest, c);
    cas_manifest = λ expected blob new c.
        if c.manifest.1 == expected
        then (ok tt, record c { manifest = (some blob, new) })
        else (err version_conflict, c);
    get_roster = λ c. (ok c.roster, c);
    cas_roster = λ expected blob new c.
        if c.roster.1 == expected
        then (ok tt, record c { roster = (some blob, new) })
        else (err version_conflict, c);
    put_keyfile = λ content c. (ok tt, record c { keyfile = some content });
    get_keyfile = λ c. (or_err c.keyfile not_found, c);
  }
