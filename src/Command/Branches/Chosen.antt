-- ===== src/Command/Branches/Chosen.antt =====
-- Which branch a clone checks out.
use secret_git.Prelude.{
  Text, ◌≡◌, ◌≢◌, ◌⊎◌, ◌↔◌, text_beq, refl, inl, inr, Bool-cases, true, List, [], ◌∷◌, nat_eq,
  text_eq, ok,
}
use secret_git.LocalState.{contains}
use secret_git.Command.Branches.{choose_branch}

-- A branch is chosen exactly where it is the one asked for and among the heads, or none is asked
-- for and it is the only head.
pub choose_branch_iff :
    (want b : Text) (heads : List Text)
    → (choose_branch want heads ≡ ok b) ↔ (
        ((want ≢ []) × (want ≡ b) × (contains want heads ≡ true))
        ⊎ ((want ≡ []) × (heads ≡ b ∷ [])))
unfolding choose_branch text_beq
choose_branch_iff [] b [] = (λ e. cc, λ s. elim s [ inl p ↦ absurd (p.0 refl) | inr p ↦ cc p.1 ])
choose_branch_iff [] b (h ∷ []) =
    (λ e. inr (refl, cc e), λ s. elim s [ inl p ↦ absurd (p.0 refl) | inr p ↦ cc p.1 ])
choose_branch_iff [] b (h ∷ i ∷ hs) =
    (λ e. cc, λ s. elim s [ inl p ↦ absurd (p.0 refl) | inr p ↦ cc p.1 ])
choose_branch_iff (c ∷ cs) b heads = elim (Bool-cases (contains (c ∷ cs) heads)) [
  | inl t ↦ rw t (λ e. inl (λ x. cc, cc e, refl), λ s. elim s [ inl p ↦ cc p.1 | inr p ↦ cc p.0 ])
  | inr f ↦ rw f (λ e. cc, λ s. elim s [ inl p ↦ cc p.2 | inr p ↦ cc p.0 ])
]
