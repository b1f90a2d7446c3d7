-- ===== src/Scripts/Headers.antt =====
-- From the headers of an AGENT directive, through the script, to those that the agent sends.
use mathlib.Core.List.{map, reverse, reverse-reverse, reverse_aux}
use cnimbus.Common.{
  All, List, Option, [], ap, arith, drop, false, if◌then◌else◌, length, none, refl, some, true, ℕ,
  ◌++◌, ◌∙◌, ◌∷◌, ◌≡◌,
}
use cnimbus.Common.Number.{all_chars}
use cnimbus.Common.Text.{
  Text, codes, contains, cut, eqt, is_space, split, split_loop, trim_left, trim_space,
}
use cnimbus.Guest.Headers.{add_header_line, add_header_lines, parse_headers_env, set_header}
use cnimbus.Nimbus.Types.{AgentHeader}
use cnimbus.Scripts.AgentScript.{
  build_agent_script, exec_line, header_export, header_exports, header_line,
}
use cnimbus.Scripts.Environment.{scan-assignment}
use cnimbus.Scripts.LineBreaks.{OneLine, contains-append}
use cnimbus.Scripts.Reader.{act, is_plain, read_command, read_commands, scan}
use cnimbus.Scripts.Shell.{concat, join, quote_all, unlines}
use cnimbus.Scripts.Spec.{GuestAgent}
use cnimbus.Scripts.Words.{read_commands-line, scan-quoted_words}

split-line :
    (l acc s : Text)
    → OneLine l
    → split_loop 10 acc (l ++ 10 ∷ s) ≡ reverse (reverse_aux l acc) ∷ split_loop 10 [] s
unfolding split_loop contains
split-line [] acc s h = refl
split-line (c ∷ l) acc s h = ground (arith, split-line l (c ∷ acc) s)

split-last : (l acc : Text) → OneLine l → split_loop 10 acc l ≡ reverse (reverse_aux l acc) ∷ []
unfolding split_loop contains
split-last [] acc h = refl
split-last (c ∷ l) acc h = ground (arith, split-last l (c ∷ acc))

split-join :
    (l : Text) (ls : List Text)
    → OneLine l
    → All OneLine ls
    → split 10 (join (codes "\n") (l ∷ ls)) ≡ l ∷ ls
unfolding split join
split-join l [] one many = rw (split-last l [] one, reverse-reverse l) refl
split-join l (l' ∷ ls) one many =
    rw (split-line l [] (join (codes "\n") (l' ∷ ls)) one, reverse-reverse l)
      (ap (λ (rest : List Text). l ∷ rest) (split-join l' ls many.0 many.1))

parse_headers_env-split : (raw : Text) → parse_headers_env raw ≡ add_header_lines [] (split 10 raw)
unfolding parse_headers_env add_header_lines add_header_line split split_loop cut
parse_headers_env-split [] = refl
parse_headers_env-split (c ∷ raw) = refl

cut-found :
    (sep : ℕ) (a b : Text)
    → contains a sep ≡ false
    → cut sep (a ++ sep ∷ b) ≡ record { before = a; after = b; found = true }
unfolding cut contains
cut-found sep [] b h = ground arith
cut-found sep (c ∷ a) b h = ground (arith, cut-found sep a b)

-- A header that survives: one line, no colon in its name, no blanks around the two parts.
pub record IsSendable (h : AgentHeader) : Type 0 where
  pub name_line : OneLine h.name
  pub value_line : OneLine h.value
  pub no_colon : contains h.name 58 ≡ false
  pub name_trimmed : trim_space h.name ≡ h.name
  pub value_trimmed : trim_space h.value ≡ h.value

trim_space-blank : (t : Text) → trim_space (32 ∷ t) ≡ trim_space t
unfolding trim_space trim_left is_space
trim_space-blank t = refl

add_header_line-header :
    (m : List (Text × Text)) (h : AgentHeader)
    → IsSendable h
    → add_header_line m (header_line h) ≡ set_header h.name h.value m
unfolding add_header_line concat
add_header_line-header m h good =
    rw
      (
        cut-found 58 h.name (32 ∷ h.value) good.no_colon,
        trim_space-blank h.value,
        good.name_trimmed,
        good.value_trimmed,
      )
      refl

pub set_headers : List (Text × Text) → List AgentHeader → List (Text × Text)
set_headers m [] = m
set_headers m (h ∷ hs) = set_headers (set_header h.name h.value m) hs

add_header_lines-headers :
    (m : List (Text × Text)) (hs : List AgentHeader)
    → All IsSendable hs
    → add_header_lines m (map header_line hs) ≡ set_headers m hs
unfolding add_header_lines set_headers
add_header_lines-headers m [] all = refl
add_header_lines-headers m (h ∷ hs) all =
    ap (λ m'. add_header_lines m' (map header_line hs)) (add_header_line-header m h all.0)
    ∙ add_header_lines-headers (set_header h.name h.value m) hs all.1

header_line-OneLine : (h : AgentHeader) → IsSendable h → OneLine (header_line h)
unfolding contains concat
header_line-OneLine h good =
    ground (arith, contains-append h.name (58 ∷ 32 ∷ h.value) 10, good.name_line, good.value_line)

header_lines-OneLine :
    (hs : List AgentHeader) → All IsSendable hs → All OneLine (map header_line hs)
header_lines-OneLine [] all = tt
header_lines-OneLine (h ∷ hs) all = (header_line-OneLine h all.0, header_lines-OneLine hs all.1)

abbrev joined : List AgentHeader → Text
joined hs = join (codes "\n") (map header_line hs)

parse_headers_env-joined :
    (h : AgentHeader) (hs : List AgentHeader)
    → All IsSendable (h ∷ hs)
    → parse_headers_env (joined (h ∷ hs)) ≡ set_headers [] (h ∷ hs)
parse_headers_env-joined h hs all =
    let ls = header_lines-OneLine (h ∷ hs) all in
    parse_headers_env-split (joined (h ∷ hs))
    ∙ ap (add_header_lines []) (split-join (header_line h) (map header_line hs) ls.0 ls.1)
    ∙ add_header_lines-headers [] (h ∷ hs) all

-- The value that a command `export NAME=value` gives to the variable of the agent's headers.
abbrev exported : List Text → Text → Text
exported [] old = old
exported (w ∷ ws) old =
    let parts = cut 61 w in
    if eqt parts.before (codes "CNIMBUS_AGENT_HEADERS") then parts.after else old

-- The shell's run of the script's commands: the value of the variable, and what it executes.
pub run_commands : Text → List (List Text) → Option (Text × List Text)
run_commands raw [] = none
run_commands raw ([] ∷ commands) = run_commands raw commands
run_commands raw ((w ∷ ws) ∷ commands) =
    if eqt w (codes "exec") then some (raw, ws) else run_commands (exported ws raw) commands

-- The agent that a script's commands start: the headers that it reads, and its arguments.
pub agent_of : Option (List (List Text) × Text) → Option (List (Text × Text) × List Text)
agent_of none = none
agent_of (some (commands, rest)) = elim (run_commands [] commands) [
  | none ↦ none
  | some ran ↦ some (parse_headers_env ran.0, ran.1)
]

abbrev pub agent_words : GuestAgent → List Text
agent_words a = codes "/usr/bin/cnimbusagent" ∷ codes "http" ∷ a.url ∷ a.interval ∷ []

read_command-exec_line :
    (a : GuestAgent) (rest : Text)
    → read_command (exec_line a ++ 10 ∷ rest) ≡ some (codes "exec" ∷ agent_words a, rest)
unfolding read_command scan act exec_line concat is_plain contains join quote_all
read_command-exec_line a rest =
    scan-quoted_words (a.url ∷ a.interval ∷ [])
      (codes "http" ∷ codes "/usr/bin/cnimbusagent" ∷ codes "exec" ∷ []) rest

abbrev header_words : List AgentHeader → List Text
header_words hs = codes "export" ∷ (codes "CNIMBUS_AGENT_HEADERS=" ++ joined hs) ∷ []

read_command-header_export :
    (hs : List AgentHeader) (rest : Text)
    → read_command (header_export hs ++ 10 ∷ rest) ≡ some (header_words hs, rest)
unfolding read_command scan act is_plain contains all_chars header_export concat
read_command-header_export hs rest =
    scan-assignment (codes "CNIMBUS_AGENT_HEADERS") (joined hs) (codes "export" ∷ []) rest refl

abbrev pub script_lines : GuestAgent → List AgentHeader → List Text
script_lines a hs = header_exports hs ++ exec_line a ∷ []

abbrev header_commands : List AgentHeader → List (List Text)
header_commands [] = []
header_commands (h ∷ hs) = header_words (h ∷ hs) ∷ []

read_commands-exec_line :
    (a : GuestAgent)
    → read_commands 1 (unlines (exec_line a ∷ [])) ≡ some ((codes "exec" ∷ agent_words a) ∷ [], [])
unfolding read_commands unlines
read_commands-exec_line a =
    read_commands-line 0 (exec_line a) [] (codes "exec" ∷ agent_words a) []
      (read_command-exec_line a) refl

read_commands-script_lines :
    (a : GuestAgent) (hs : List AgentHeader)
    → read_commands (length (script_lines a hs)) (unlines (script_lines a hs))
      ≡ some (header_commands hs ++ (codes "exec" ∷ agent_words a) ∷ [], [])
unfolding header_exports
read_commands-script_lines a [] = read_commands-exec_line a
read_commands-script_lines a (h ∷ hs) =
    read_commands-line 1 (header_export (h ∷ hs)) (exec_line a ∷ []) (header_words (h ∷ hs))
      ((codes "exec" ∷ agent_words a) ∷ []) (read_command-header_export (h ∷ hs))
      (read_commands-exec_line a)

agent_of-commands :
    (a : GuestAgent) (hs : List AgentHeader)
    → All IsSendable hs
    → agent_of (some (header_commands hs ++ (codes "exec" ∷ agent_words a) ∷ [], []))
      ≡ some (set_headers [] hs, agent_words a)
unfolding agent_of run_commands set_headers cut eqt parse_headers_env
agent_of-commands a [] all = refl
agent_of-commands a (h ∷ hs) all =
    ap (λ (m : List (Text × Text)). some (m, agent_words a)) (parse_headers_env-joined h hs all)

-- The agent that the script of an AGENT directive starts is given the directive's URL and
-- interval to the character, and reads the directive's headers, of which a later one replaces an
-- earlier one of its name. Each header is one line without blanks at the ends of its two parts
-- and without a colon in its name.
pub agent_of-build_agent_script :
    (a : GuestAgent)
    → All IsSendable a.headers
    → agent_of (
        read_commands
          (length (script_lines a a.headers))
          (drop (length (codes "#!/bin/sh\n")) (build_agent_script a)))
      ≡ some (set_headers [] a.headers, agent_words a)
unfolding build_agent_script unlines
agent_of-build_agent_script a all =
    ap agent_of (read_commands-script_lines a a.headers) ∙ agent_of-commands a a.headers all
