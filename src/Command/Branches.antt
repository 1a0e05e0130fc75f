-- ===== src/Command/Branches.antt =====
-- pickBranch of cmd/encgit/clone.go: the branch that a clone checks out.
pub mod Chosen
use secret_git.Prelude.{
  Text, codes, ℕ, ◌≡◌, ◌≢◌, ◌⊎◌, refl, inl, inr, Bool, true, false, Option, none, some, List, [],
  ◌∷◌, ◌++◌, if◌then◌else◌, ◌==◌, ◌&&◌, ◌||◌, leb, nat_eq, text_eq, Result, ok, err, or_err, arith,
  text_beq_iff,
}
use mathlib.Core.List.{reverse}
use secret_git.Errors.{Error, git_failed, unknown_branch, no_branch, many_branches}
use secret_git.Exec.{Exec, continue}
use secret_git.Split.{is_space}
use secret_git.LocalState.{contains}
use secret_git.Git.{Git, run_git}

-- A word that is not empty, in front of others.
abbrev word_then : Text → List Text → List Text
word_then [] ws = ws
word_then (c ∷ cs) ws = (c ∷ cs) ∷ ws

-- White space of two and of three bytes: U+0085, U+00A0; U+1680, U+2000 to U+200A, U+2028, U+2029,
-- U+202F, U+205F and U+3000.
abbrev pub is_space_2 : ℕ → ℕ → Bool
is_space_2 a b = a == 0xc2 && (b == 0x85 || b == 0xa0)

abbrev pub is_space_3 : ℕ → ℕ → ℕ → Bool
is_space_3 a b c =
    (a == 0xe1 && b == 0x9a && c == 0x80)
    || (a == 0xe2
        && b == 0x80
        && ((leb 0x80 c && leb c 0x8a) || c == 0xa8 || c == 0xa9 || c == 0xaf))
    || (a == 0xe2 && b == 0x81 && c == 0x9f)
    || (a == 0xe3 && b == 0x80 && c == 0x80)

-- A text whose white space of more than one byte is a blank; such a space begins with a byte that
-- no other character holds further on.
unfoldable pub with_blanks : Text → Text
with_blanks [] = []
with_blanks (a ∷ []) = a ∷ []
with_blanks (a ∷ b ∷ []) = if is_space_2 a b then b' ' ∷ [] else a ∷ b ∷ []
with_blanks (a ∷ b ∷ c ∷ cs) =
    let after_3 = with_blanks cs in
    let after_2 = with_blanks (c ∷ cs) in
    let after_1 = with_blanks (b ∷ c ∷ cs) in
    if is_space_3 a b c
    then b' ' ∷ after_3
    else if is_space_2 a b
    then b' ' ∷ after_2
    else a ∷ after_1

-- strings.Fields, of a text whose white space has one byte; the text in front of the first white space joins `word`.
unfoldable pub fields_from : Text → Text → List Text
unfolding is_space
fields_from word [] = word_then word []
fields_from word (c ∷ cs) =
    let fresh = fields_from [] cs in
    let more = fields_from (word ++ (c ∷ [])) cs in
    if is_space c then word_then word fresh else more

-- The switch on the number of heads.
abbrev pub only_head : List Text → Result Error Text
only_head [] = err no_branch
only_head (h ∷ []) = ok h
only_head (h ∷ i ∷ hs) = err many_branches

-- pickBranch on the heads that were listed.
unfoldable pub choose_branch : Text → List Text → Result Error Text
unfolding contains
choose_branch want heads =
    if want == []
    then only_head heads
    else if contains want heads
    then ok want
    else err unknown_branch

module _ {G : Type 0} ⦃git : Git G⦄ where
  unfoldable pub pick_branch : Text → Text → Exec G Text
  unfolding run_git choose_branch fields_from with_blanks
  pick_branch dir want g =
      let (r, g') =
        run_git none
          (codes "-C"
            ∷ dir
            ∷ codes "for-each-ref"
            ∷ codes "--format=%(refname:short)"
            ∷ codes "refs/heads"
            ∷ [])
          g in
      continue r (λ out g. (choose_branch want (fields_from [] (with_blanks out)), g)) g'
