-- ===== src/Scripts/Reader.antt =====
-- How a POSIX shell reads the simple commands that the scripts quote: single quotes, a backslash,
-- blanks and newlines; an exclamation mark is one of an argument. A character that the shell would expand or take for an operator is refused.
use mathlib.Core.List.{reverse}
use cnimbus.Common.{
  Bool, List, Option, [], if◌then◌else◌, leb, none, some, suc, zero, ℕ, ◌&&◌, ◌==◌, ◌||◌, ◌∷◌,
}
use cnimbus.Common.Text.{Text, codes, contains}

pub data Quoting : Type 0 where
  between bare single_quoted escaped : Quoting

pub data Action : Type 0 where
  keep : Quoting → Action
  append_char : Quoting → Action
  push : Action
  stop : Action
  refuse : Action

unfoldable pub is_plain : ℕ → Bool
is_plain c =
    leb b'a' c && leb c b'z'
    || leb b'A' c && leb c b'Z'
    || leb b'0' c && leb c b'9'
    || contains (codes "_-./=:,+@!") c

abbrev start_word : ℕ → Action
start_word c =
    if c == 39
    then keep single_quoted
    else if c == 92
    then keep escaped
    else if is_plain c
    then append_char bare
    else refuse

unfoldable pub act : Quoting → ℕ → Action
act between c = if c == 32 then keep between else if c == 10 then stop else start_word c
act bare c = if c == 32 then push else if c == 10 then stop else start_word c
act single_quoted c = if c == 39 then keep bare else append_char single_quoted
act escaped c = if c == 10 then refuse else append_char bare

-- The words read so far, the last first, when a command ends; `word` is backwards.
abbrev close : Quoting → Text → List Text → Option (List Text)
close between word words = some (reverse words)
close bare word words = some (reverse (reverse word ∷ words))
close single_quoted word words = none
close escaped word words = none

abbrev with_rest : Text → Option (List Text) → Option (List Text × Text)
with_rest rest none = none
with_rest rest (some words) = some (words, rest)

unfoldable pub scan : Quoting → Text → List Text → Text → Option (List Text × Text)
unfolding act
scan q word words [] = with_rest [] (close q word words)
scan q word words (c ∷ s) = elim (act q c) [
  | keep q' ↦ scan q' word words s
  | append_char q' ↦ scan q' (c ∷ word) words s
  | push ↦ scan between [] (reverse word ∷ words) s
  | stop ↦ with_rest s (close q word words)
  | refuse ↦ none
]

-- The words of the first command of a text, and what follows its newline.
unfoldable pub read_command : Text → Option (List Text × Text)
unfolding scan
read_command = scan between [] []

abbrev pub then_read :
    (Text → Option (List (List Text) × Text))
    → Option (List Text × Text)
    → Option (List (List Text) × Text)
then_read more_of none = none
then_read more_of (some (words, rest)) = elim (more_of rest) [
  | none ↦ none
  | some (commands, left) ↦ some (words ∷ commands, left)
]

-- The first `n` commands of a text, and what follows them.
unfoldable pub read_commands : ℕ → Text → Option (List (List Text) × Text)
unfolding read_command
read_commands zero s = some ([], s)
read_commands (suc n) s = then_read (read_commands n) (read_command s)

-- The lines of a text.
abbrev add_to_line : ℕ → List Text → List Text
add_to_line c [] = (c ∷ []) ∷ []
add_to_line c (l ∷ ls) = (c ∷ l) ∷ ls

unfoldable pub lines : Text → List Text
lines [] = []
lines (c ∷ s) = let rest = lines s in if c == 10 then [] ∷ rest else add_to_line c rest
