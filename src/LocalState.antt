-- ===== src/LocalState.antt =====
-- internal/localstate/localstate.go: the pins and the caches that a client keeps. The file is
-- `none` until the first save; its JSON is not modelled.
use secret_git.Prelude.{
  Text, ℕ, Bool, false, ◌||◌, Option, none, some, List, [], ◌∷◌, ◌++◌, if◌then◌else◌, ◌==◌, text_eq,
}

pub record State : Type 0 where
  pub version : ℕ
  pub manifest_hash : Text
  pub imported_packs : List Text
  pub roster_pinned : Bool
  pub roster_version : ℕ
  pub roster_hash : Text
  pub trusted_roster : Text
  pub repo_keys : List Text

abbrev pub zero_state : State
zero_state = record {
  version = 0;
  manifest_hash = [];
  imported_packs = [];
  roster_pinned = false;
  roster_version = 0;
  roster_hash = [];
  trusted_roster = [];
  repo_keys = [];
}

-- Load: a missing file is the zero state.
abbrev pub load : Option State → State
load none = zero_state
load (some st) = st

unfoldable pub contains : Text → List Text → Bool
contains k [] = false
contains k (j ∷ ks) = j == k || contains k ks

unfoldable pub has_key : State → Text → Bool
unfolding contains
has_key st k = contains k st.repo_keys

unfoldable pub add_key : State → Text → State
unfolding has_key
add_key st k = if has_key st k then st else record st { repo_keys = st.repo_keys ++ (k ∷ []) }

unfoldable pub has_pack : State → Text → Bool
unfolding contains
has_pack st id = contains id st.imported_packs

unfoldable pub add_pack : State → Text → State
unfolding has_pack
add_pack st id =
    if has_pack st id then st else record st { imported_packs = st.imported_packs ++ (id ∷ []) }
