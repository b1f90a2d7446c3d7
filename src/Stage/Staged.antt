-- ===== src/Stage/Staged.antt =====
-- The run of the checks of Stage/Init and of what follows them by a shell, line by line: `runs` is whether a command succeeds.
use mathlib.Core.List.{reverse}
use cnimbus.Common.{
  Bool, Bool-cases, List, Option, [], ap, arith, drop, false, if◌then◌else◌, inl, inr, length,
  length-append, none, refl, some, sym, take, true, ◌++◌, ◌-◌, ◌∙◌, ◌∷◌, ◌≡◌,
}
use cnimbus.Common.Number.{format_uint}
use cnimbus.Common.Text.{Text, codes, contains, eqt, eqt_iff, has_prefix}
use cnimbus.Scripts.Environment.{scan-word}
use cnimbus.Scripts.Numerals.{format_uint-word}
use cnimbus.Scripts.Reader.{act, is_plain, read_command, scan}
use cnimbus.Scripts.Shell.{concat, join, quote_all, sh_quote}
use cnimbus.Scripts.Spec.{ExtraFile}
use cnimbus.Scripts.Words.{scan-last_words}
use cnimbus.Stage.Init.{chmod_command, copy_command, staging_check}
use cnimbus.Stage.Shadow.{trim_leading_slash}

-- The commands that succeeded and how the run ends: with the command that takes over, with a
-- command that failed and the words behind `exit`, or behind the last line.
pub data Progress : Type 0 where
  handed_over : List (List Text) → List Text → Progress
  gave_up : List (List Text) → List Text → List Text → Progress
  ran_out : List (List Text) → Progress
  not_read : Progress

-- The command between `if ! ` and `; then`.
abbrev condition : Text → Text
condition l = take (length l - 11) (drop 5 l)

abbrev check_line : Text → Text
check_line cmd = concat (codes "if ! " ∷ cmd ∷ codes "; then" ∷ [])

unfoldable pub read_check : Text → Option (List Text × Text)
unfolding eqt concat read_command
read_check l = if eqt l (check_line (condition l)) then read_command (condition l) else none

-- Where the shell stands: between the checks, or in the body of one whose command has succeeded or
-- has failed.
pub data Place : Type 0 where
  outside : Place
  skipping : Place
  failing : List Text → Place

pub data Move : Type 0 where
  carry_on : List (List Text) → Place → Move
  end_with : Progress → Move

abbrev pub check_move : (List Text → Bool) → List (List Text) → Option (List Text × Text) → Move
check_move runs ran none = end_with not_read
check_move runs ran (some (words, c ∷ rest)) = end_with not_read
check_move runs ran (some (words, [])) = elim (runs words) [
  | true ↦ carry_on (words ∷ ran) skipping
  | false ↦ carry_on ran (failing words)
]

abbrev whole : (List Text → Progress) → Option (List Text × Text) → Progress
whole f none = not_read
whole f (some (words, [])) = f words
whole f (some (words, c ∷ rest)) = not_read

abbrev say_prefix : Text
say_prefix = codes "/bin/sh /etc/cnimbus-say "

unfoldable pub move : (List Text → Bool) → List (List Text) → Place → Text → Move
unfolding has_prefix eqt read_check read_command
move runs ran outside l =
    if has_prefix l (codes "if ! ")
    then check_move runs ran (read_check l)
    else if has_prefix l (codes "exec ")
    then end_with (whole (handed_over (reverse ran)) (read_command (drop 5 l)))
    else if has_prefix l say_prefix
    then carry_on ran outside
    else end_with not_read
move runs ran skipping l =
    if eqt l (codes "fi") then carry_on ran outside else carry_on ran skipping
move runs ran (failing words) l =
    if eqt l (codes "fi")
    then carry_on ran outside
    else if has_prefix l (codes "  exit ")
    then end_with (whole (gave_up (reverse ran) words) (read_command (drop 7 l)))
    else if has_prefix l (codes "  echo ")
    then carry_on ran (failing words)
    else end_with not_read

-- `ran` holds the last command first.
unfoldable pub run_checks : (List Text → Bool) → List Text → List (List Text) → Place → Progress
unfolding move
run_checks runs [] ran place = ran_out (reverse ran)
run_checks runs (l ∷ ls) ran place = elim (move runs ran place l) [
  | carry_on now next ↦ run_checks runs ls now next
  | end_with progress ↦ progress
]

-- The commands that put the files in place, in order, up to the first that fails.
abbrev command_pair : ExtraFile → List (List Text)
command_pair f =
    let rel = trim_leading_slash f.path in
    (codes "cp" ∷ (codes "/shadow/" ++ rel) ∷ (codes "/mnt/root/" ++ rel) ∷ [])
    ∷ (codes "chmod" ∷ format_uint 8 f.perm ∷ (codes "/mnt/root/" ++ rel) ∷ [])
    ∷ []

unfoldable pub staging_commands : List ExtraFile → List (List Text)
staging_commands [] = []
staging_commands (f ∷ files) = command_pair f ++ staging_commands files

-- What takes over behind the last command.
abbrev switch_words : List Text
switch_words = codes "switch_root" ∷ codes "/mnt/root" ∷ codes "/sbin/init" ∷ []

unfoldable pub run_commands_in_order :
    (List Text → Bool) → List (List Text) → List (List Text) → Progress
run_commands_in_order runs ran [] = handed_over (reverse ran) switch_words
run_commands_in_order runs ran (words ∷ commands) = elim (runs words) [
  | true ↦ run_commands_in_order runs (words ∷ ran) commands
  | false ↦ gave_up (reverse ran) words (codes "1" ∷ [])
]

take-own : (xs ys : Text) → take (length xs) (xs ++ ys) ≡ xs
take-own [] ys = refl
take-own (x ∷ xs) ys = ap (λ rest. x ∷ rest) (take-own xs ys)

condition-check : (cmd : Text) → condition (check_line cmd) ≡ cmd
unfolding concat
condition-check cmd =
    ap (λ n. take n (cmd ++ codes "; then")) (omega (arith, length-append cmd (codes "; then")))
    ∙ take-own cmd (codes "; then")

read_check-line : (cmd : Text) → read_check (check_line cmd) ≡ read_command cmd
unfolding read_check
read_check-line cmd =
    let same : eqt (check_line cmd) (check_line (condition (check_line cmd))) ≡ true =
      (eqt_iff (check_line cmd) (check_line (condition (check_line cmd)))).1
        (ap check_line (sym (condition-check cmd))) in
    rw same (ap read_command (condition-check cmd))

-- A command of a check: the run goes on when it succeeds, and ends with status 1 when it fails.
abbrev pub checked :
    (List Text → Bool) → List (List Text) → (List (List Text) → Progress) → List Text → Progress
checked runs ran on words = elim (runs words) [
  | true ↦ on (words ∷ ran)
  | false ↦ gave_up (reverse ran) words (codes "1" ∷ [])
]

move-check :
    (runs : List Text → Bool) (ran : List (List Text)) (cmd : Text) (words : List Text)
    → read_command cmd ≡ some (words, [])
    → move runs ran outside (check_line cmd) ≡ check_move runs ran (some (words, []))
unfolding move has_prefix concat
move-check runs ran cmd words h = ap (check_move runs ran) (read_check-line cmd ∙ h)

run_checks-move :
    (runs : List Text → Bool) (ran : List (List Text)) (l : Text) (ls : List Text) (m : Move)
    (place : Place)
    → move runs ran place l ≡ m
    → run_checks runs (l ∷ ls) ran place
      ≡ elim m [ carry_on now next ↦ run_checks runs ls now next | end_with progress ↦ progress ]
unfolding run_checks
run_checks-move runs ran l ls m place h = rw (h, run_checks) refl

-- The lines of a check behind its first.
abbrev body_of : Text → List Text
body_of message =
    concat (codes "  echo " ∷ sh_quote message ∷ []) ∷ codes "  exit 1" ∷ codes "fi" ∷ []

-- What is left of a check when its command has been run.
run_checks-body :
    (runs : List Text → Bool) (ran : List (List Text)) (message : Text) (words ls : List Text)
    → elim (check_move runs ran (some (words, []))) [
      | carry_on now next ↦ run_checks runs (body_of message ++ ls) now next
      | end_with progress ↦ progress
    ]
      ≡ checked runs ran (λ now. run_checks runs ls now outside) words
unfolding run_checks move has_prefix concat read_command scan act is_plain contains eqt sh_quote
run_checks-body runs ran message words ls = elim (Bool-cases (runs words)) [
  | inl e ↦ rw (e, check_move, checked) refl
  | inr e ↦ rw (e, check_move, checked) refl
]

-- One check, read as the words of its command.
pub run_checks-check :
    (runs : List Text → Bool) (ran : List (List Text)) (cmd path : Text) (words : List Text)
    (ls : List Text)
    → read_command cmd ≡ some (words, [])
    → run_checks runs (staging_check cmd path ++ ls) ran outside
      ≡ checked runs ran (λ now. run_checks runs ls now outside) words
unfolding staging_check concat
run_checks-check runs ran cmd path words ls h =
    let message =
      codes "cnimbus: FATAL: could not stage "
      ++ (path ++ codes " into its exec directory (tmpfs full? see TMPSIZE)") in
    run_checks-move runs ran (check_line cmd) (body_of message ++ ls)
      (check_move runs ran (some (words, []))) outside (move-check runs ran cmd words h)
    ∙ run_checks-body runs ran message words ls

pub read_command-copy :
    (f : ExtraFile)
    → read_command (copy_command f)
      ≡ some (
        codes "cp"
            ∷ (codes "/shadow/" ++ trim_leading_slash f.path)
            ∷ (codes "/mnt/root/" ++ trim_leading_slash f.path)
            ∷ [],
        [],
      )
unfolding read_command scan act copy_command concat is_plain contains join quote_all
read_command-copy f =
    let rel = trim_leading_slash f.path in
    scan-last_words (codes "/shadow/" ++ rel) ((codes "/mnt/root/" ++ rel) ∷ []) (codes "cp" ∷ [])

pub read_command-chmod :
    (f : ExtraFile)
    → read_command (chmod_command f)
      ≡ some (
        codes "chmod"
            ∷ format_uint 8 f.perm
            ∷ (codes "/mnt/root/" ++ trim_leading_slash f.path)
            ∷ [],
        [],
      )
unfolding read_command scan act chmod_command concat is_plain contains join quote_all
read_command-chmod f =
    let path = codes "/mnt/root/" ++ trim_leading_slash f.path in
    scan-word (format_uint 8 f.perm) (codes "chmod" ∷ []) (sh_quote path) (format_uint-word f.perm)
    ∙ scan-last_words path [] (format_uint 8 f.perm ∷ codes "chmod" ∷ [])
