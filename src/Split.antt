-- ===== src/Split.antt =====
-- strings.TrimSpace and strings.Split at newlines, over ASCII.
use secret_git.Prelude.{
  Text, ℕ, Bool, ◌&&◌, ◌||◌, List, [], ◌∷◌, ◌++◌, if◌then◌else◌, ◌==◌, nat_eq, leb,
}
use mathlib.Core.List.{reverse}

-- Tab, newline, vertical tab, form feed, carriage return, space.
unfoldable pub is_space : ℕ → Bool
is_space c = (leb 9 c && leb c 13) || c == 32

unfoldable pub trim_left : Text → Text
unfolding is_space
trim_left [] = []
trim_left (c ∷ cs) = if is_space c then trim_left cs else c ∷ cs

unfoldable pub trim_space : Text → Text
unfolding trim_left
trim_space s = reverse (trim_left (reverse (trim_left s)))

-- The text in front of the first newline joins `line`.
unfoldable pub split_lines_from : Text → Text → List Text
split_lines_from line [] = line ∷ []
split_lines_from line (c ∷ cs) =
    let fresh = split_lines_from [] cs in
    let more = split_lines_from (line ++ (c ∷ [])) cs in if c == 10 then line ∷ fresh else more

unfoldable pub split_lines : Text → List Text
unfolding split_lines_from
split_lines s = split_lines_from [] s
