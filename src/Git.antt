-- ===== src/Git.antt =====
-- internal/helper/git.go: the git commands that the engine runs. The git executable is a
-- parameter: standard input and arguments to standard output, or `none` when it fails.
use secret_git.Prelude.{
  Text, codes, ℕ, suc, Option, none, some, List, [], ◌∷◌, ◌++◌, if◌then◌else◌, ◌==◌, nat_eq,
  text_eq, or_err,
}
use secret_git.Errors.{git_failed}
use secret_git.Exec.{Exec, pure, ◌>>=◌}
use secret_git.Split.{trim_space, split_lines}

pub record Git (G : Type 0) : Type 0 where
  pub exec : Option Text → List Text → G → Option Text × G

-- The lines that are not blank, trimmed.
unfoldable pub trimmed_lines : List Text → List Text
trimmed_lines [] = []
trimmed_lines (l ∷ ls) =
    let rest = trimmed_lines ls in if trim_space l == [] then rest else trim_space l ∷ rest

unfoldable pub count_lines : List Text → ℕ
count_lines [] = 0
count_lines (l ∷ ls) = if trim_space l == [] then count_lines ls else suc (count_lines ls)

module _ {G : Type 0} ⦃git : Git G⦄ where
  unfoldable pub run_git : Option Text → List Text → Exec G Text
  run_git stdin args g = let (out, g') = git.exec stdin args g in (or_err out git_failed, g')

  unfoldable pub rev_parse : Text → Exec G Text
  rev_parse ref = do
    out ← run_git none (codes "rev-parse" ∷ codes "--verify" ∷ codes "--end-of-options" ∷ ref ∷ [])
    pure (trim_space out)

  unfoldable pub list_head_refs : Exec G (List Text)
  list_head_refs = do
    out ←
        run_git none (codes "for-each-ref" ∷ codes "--format=%(refname)" ∷ codes "refs/heads" ∷ [])
    pure (trimmed_lines (split_lines out))

  -- The pack is `none` where there is nothing new to send.
  unfoldable pub generate_pack : List Text → List Text → Exec G (Option Text)
  generate_pack want have = do
    objects ← run_git none (
        codes "rev-list"
        ∷ codes "--objects"
        ∷ (want ++ elim have [ [] ↦ [] | h ∷ hs ↦ codes "--not" ∷ h ∷ hs ]))
    if count_lines (split_lines objects) == 0 then pure none else do
      pack ← run_git (some objects) (codes "pack-objects" ∷ codes "--stdout" ∷ codes "-q" ∷ [])
      pure (some pack)

  unfoldable pub index_pack : Text → Exec G (Unit {0})
  index_pack pack = do
    _ ← run_git (some pack) (codes "index-pack" ∷ codes "--stdin" ∷ codes "--fix-thin" ∷ [])
    pure tt

  unfoldable pub update_ref : Text → Text → Exec G (Unit {0})
  update_ref ref sha = do
    _ ← run_git none (codes "update-ref" ∷ codes "--end-of-options" ∷ ref ∷ sha ∷ [])
    pure tt
