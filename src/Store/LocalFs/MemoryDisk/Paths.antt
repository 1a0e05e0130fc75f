-- ===== src/Store/LocalFs/MemoryDisk/Paths.antt =====
-- The paths of the disk in memory, as lists of plain components.
use secret_git.Prelude.{
  Text, codes, ℕ, ◌≡◌, ◌≢◌, refl, sym, ◌∙◌, ap, false, List, [], ◌∷◌, ◌++◌, nat_eq, text_eq, All,
  append_assoc, arith,
}
use mathlib.Core.List.{reverse, reverse-append}
use secret_git.Store.Disk.{IsPlain, is_plain, has_separator}

-- Each component is followed by a slash.
abbrev pub join : List Text → Text
join [] = []
join (c ∷ cs) = c ++ (47 ∷ join cs)

pub prefix_cancel : (r s t : Text) → (r ++ s) ≡ (r ++ t) → s ≡ t
prefix_cancel [] s t e = e
prefix_cancel (c ∷ r) s t e = prefix_cancel r s t (cc e)

no_slash : (c : ℕ) (s : Text) → has_separator (c ∷ s) ≡ false → c ≢ 47
unfolding has_separator
no_slash c s h e = ground arith

no_later : (c : ℕ) (s : Text) → has_separator (c ∷ s) ≡ false → has_separator s ≡ false
unfolding has_separator
no_later c s h = ground arith

-- A text is cut at its first slash in one way.
cut :
    (x y s t : Text)
    → has_separator x ≡ false
    → has_separator y ≡ false
    → (x ++ (47 ∷ s)) ≡ (y ++ (47 ∷ t))
    → (x ≡ y) × (s ≡ t)
cut [] [] s t p q e = (refl, cc e)
cut [] (c ∷ y) s t p q e = absurd (no_slash c y q (cc e))
cut (c ∷ x) [] s t p q e = absurd (no_slash c x p (cc e))
cut (c ∷ x) (c' ∷ y) s t p q e =
    let h = cut x y s t (no_later c x p) (no_later c' y q) (cc e) in (cc (e, h.0), h.1)

plain_solid : (x : Text) → IsPlain x → has_separator x ≡ false
unfolding is_plain
plain_solid x h = ground arith

pub join_plain : (xs ys : List Text) → All IsPlain xs → All IsPlain ys → join xs ≡ join ys → xs ≡ ys
join_plain [] [] p q e = refl
join_plain [] ([] ∷ ys) p q e = cc
join_plain [] ((c ∷ y) ∷ ys) p q e = cc
join_plain ([] ∷ xs) [] p q e = cc
join_plain ((c ∷ x) ∷ xs) [] p q e = cc
join_plain (x ∷ xs) (y ∷ ys) (p, ps) (q, qs) e =
    let h = cut x y (join xs) (join ys) (plain_solid x p) (plain_solid y q) e in
    cc (h.0, join_plain xs ys ps qs h.1)

-- The path of a component ends with a slash, and a temporary one does not.
pub join_ends : (x : Text) (xs : List Text) → (s : Text) × (join (x ∷ xs) ≡ s ++ (47 ∷ []))
join_ends x [] = (x, refl)
join_ends x (y ∷ ys) =
    let (s, e) = join_ends y ys in
    (x ++ (47 ∷ s), ap (λ (r : Text). x ++ (47 ∷ r)) e ∙ sym (append_assoc x (47 ∷ s) (47 ∷ [])))

abbrev first : Text → ℕ
first [] = 0
first (c ∷ cs) = c

pub temp_apart : (folder s : Text) → (folder ++ codes ".tmp-0") ≢ (s ++ (47 ∷ []))
temp_apart folder s e =
    let h = ap (λ (r : Text). first (reverse r)) e in
    omega (arith, rw (reverse-append folder (codes ".tmp-0"), reverse-append s (47 ∷ [])) at h)
