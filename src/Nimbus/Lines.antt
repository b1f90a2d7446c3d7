-- ===== src/Nimbus/Lines.antt =====
-- `joinContinuations` and `dirOf`.
pub mod Numbers
use mathlib.Core.List.{reverse}
use cnimbus.Common.{ℕ, ◌+◌, Bool, true, false, not, ◌||◌, List, [], ◌∷◌, ◌++◌, ◌==◌, if◌then◌else◌}
use cnimbus.Common.Text.{Text, trim_right, split, unix_newlines}

-- The set of `strings.TrimRight(l, " \t")`.
abbrev pub is_blank : ℕ → Bool
is_blank c = c == b' ' || c == b'\t'

-- On the line backwards: `strings.HasSuffix(trimmed, "\\")`.
abbrev ends_in_backslash : Text → Bool
ends_in_backslash [] = false
ends_in_backslash (c ∷ s) = c == b'\\'

unfoldable pub is_continued : Text → Bool
unfolding trim_right
is_continued l = ends_in_backslash (reverse (trim_right is_blank l))

-- `strings.TrimSuffix(trimmed, "\\")`, for a line that is continued.
abbrev drop_head : Text → Text
drop_head [] = []
drop_head (c ∷ s) = s

unfoldable pub without_backslash : Text → Text
unfolding trim_right
without_backslash l = reverse (drop_head (reverse (trim_right is_blank l)))

abbrev pub is_empty : Text → Bool
is_empty [] = true
is_empty (c ∷ s) = false

pub record LogicalLine : Type 0 where
  pub text : Text
  pub line_no : ℕ

-- The loop of `joinContinuations` over the physical lines that are left; `i` is the index of the
-- first of them, and the texts come out with their line numbers.
unfoldable pub join_loop : List Text → ℕ → Text → ℕ → List LogicalLine
join_loop [] i acc start =
    if not (is_empty acc) then record { text = acc; line_no = start } ∷ [] else []
join_loop (l ∷ ls) i acc start =
    let start' = if is_empty acc then i + 1 else start in
    let continued = join_loop ls (i + 1) (acc ++ (without_backslash l ++ b' ' ∷ [])) start' in
    let ended = join_loop ls (i + 1) [] start' in
    if is_continued l then continued else record { text = acc ++ l; line_no = start' } ∷ ended

abbrev pub physical_lines : Text → List Text
physical_lines src = split b'\n' (unix_newlines src)

unfoldable pub join_continuations : Text → List LogicalLine
unfolding join_loop is_continued without_backslash split unix_newlines
join_continuations src = join_loop (physical_lines src) 0 [] 0

-- `dirOf`: what stands before the last slash or backslash.
dir_loop : Text → Text
dir_loop [] = b'.' ∷ []
dir_loop (c ∷ s) = let rest = dir_loop s in if c == b'/' || c == b'\\' then reverse s else rest

unfoldable pub dir_of : Text → Text
unfolding dir_loop
dir_of path = dir_loop (reverse path)
