-- ===== src/Scripts/Rules.antt =====
-- The run of a script of Scripts/Firewall by a shell: its option -e, its trap for EXIT, the
-- variable that names a rule, and the rules. `runs` is the tool that takes a rule: whether it accepts the words of one.
use mathlib.Core.List.{reverse}
use cnimbus.Common.{
  All, Bool, Bool-cases, List, Option, [], ap, drop, false, if◌then◌else◌, inl, inr, none, refl,
  some, true, ◌++◌, ◌||◌, ◌∙◌, ◌∷◌, ◌≡◌,
}
use cnimbus.Common.Text.{Text, codes, contains, eqt, has_prefix}
use cnimbus.Scripts.Firewall.{
  auto_rules, build_firewall_script, closed_handler, firewall_head, head_lines,
  icmpv6_ndp_auto_rules, open_handler, rule_lines,
}
use cnimbus.Scripts.LineBreaks.{OneLine, lines-unlines, sh_quote-OneLine}
use cnimbus.Scripts.Reader.{act, is_plain, lines, read_command, scan}
use cnimbus.Scripts.Shell.{concat, replace_quotes, sh_quote}
use cnimbus.Scripts.Words.{read_command-sh_quote}

pub data Step : Type 0 where
  stop_on_failure : Bool → Step
  set_trap : Text → Text → Step
  set_variable : Text → Step
  command : List Text → Step
  unclear : Step
  pass : Step

-- The words of a line that is one command.
abbrev whole : Option (List Text × Text) → (List Text → Step) → Step
whole (some (words, [])) f = f words
whole (some (words, c ∷ rest)) f = unclear
whole none f = unclear

abbrev trap_of : List Text → Step
trap_of (handler ∷ signal ∷ []) = set_trap handler signal
trap_of _ = unclear

abbrev variable_of : List Text → Step
variable_of (value ∷ []) = set_variable value
variable_of _ = unclear

unfoldable pub read_step : Text → Step
unfolding has_prefix read_command eqt
read_step l =
    if eqt l (codes "set -e")
    then stop_on_failure true
    else if eqt l (codes "set +e")
    then stop_on_failure false
    else if has_prefix l (codes "trap ")
    then whole (read_command (drop 5 l)) trap_of
    else if has_prefix l (codes "CNIMBUS_FAILED_RULE=")
    then whole (read_command (drop 20 l)) variable_of
    else if has_prefix l (codes "$IPTABLES_CMD ")
    then whole (read_command (drop 14 l)) command
    else if has_prefix l (codes "#") || has_prefix l (codes "/bin/sh /etc/cnimbus-say ")
    then pass
    else unclear

-- `stopped` has the rules installed before, the rule that the script names as the failed one, and
-- what the shell runs when it leaves. A script that goes on behind a refused rule ends as
-- `completed`, without that rule.
pub data Outcome : Type 0 where
  completed : List (List Text) → Outcome
  stopped : List (List Text) → Text → Text → Outcome
  unread : Outcome

-- `stops` is the shell's option -e, `handler` what it runs when it leaves, `current` the variable,
-- and `installed` the rules so far, the last first.
pub record ShellState : Type 0 where
  pub stops : Bool
  pub handler : Text
  pub current : Text
  pub installed : List (List Text)

abbrev trapped : ShellState → Text → Text → ShellState
trapped st handler signal =
    if eqt signal (codes "EXIT") then record st { handler = handler } else st

abbrev refused : ShellState → (ShellState → Outcome) → Outcome
refused st on = if st.stops then stopped (reverse st.installed) st.current st.handler else on st

abbrev offer : (List Text → Bool) → ShellState → (ShellState → Outcome) → List Text → Outcome
offer runs st on words = elim (runs words) [
  | true ↦ on (record st { installed = words ∷ st.installed })
  | false ↦ refused st on
]

unfoldable pub run_lines : (List Text → Bool) → List Text → ShellState → Outcome
unfolding read_step eqt
run_lines runs [] st = completed (reverse st.installed)
run_lines runs (l ∷ ls) st = elim (read_step l) [
  | stop_on_failure stops ↦ run_lines runs ls (record st { stops = stops })
  | set_trap handler signal ↦ run_lines runs ls (trapped st handler signal)
  | set_variable value ↦ run_lines runs ls (record st { current = value })
  | command words ↦ offer runs st (run_lines runs ls) words
  | unclear ↦ unread
  | pass ↦ run_lines runs ls st
]

-- How a shell starts: -e is off, and no trap is set.
abbrev new_shell : ShellState
new_shell = record { stops = false; handler = []; current = []; installed = [] }

unfoldable pub run_script : (List Text → Bool) → Text → Outcome
unfolding run_lines lines
run_script runs script = run_lines runs (lines script) new_shell

abbrev words_read : Option (List Text × Text) → List Text
words_read none = []
words_read (some (words, rest)) = words

unfoldable pub words_of : Text → List Text
words_of r = words_read (read_command r)

-- The shell reads the rule as words to its end.
unfoldable pub IsRead : Text → Type 0
IsRead r = read_command r ≡ some (words_of r, [])

-- The rules in order, up to the first that the tool refuses.
pub apply_rules : (List Text → Bool) → Text → List (List Text) → List Text → Outcome
apply_rules runs handler installed [] = completed (reverse installed)
apply_rules runs handler installed (r ∷ rules) = elim (runs (words_of r)) [
  | true ↦ apply_rules runs handler (words_of r ∷ installed) rules
  | false ↦ stopped (reverse installed) r handler
]

abbrev handler_of : Bool → Text
handler_of closed = if closed then closed_handler else open_handler

abbrev pub handler_for : Text → Text
handler_for on_error = handler_of (eqt on_error (codes "closed"))

-- A shell that stops, in which the script has set its trap.
abbrev strict : Text → Text → List (List Text) → ShellState
strict handler current installed = record {
  stops = true;
  handler = handler;
  current = current;
  installed = installed;
}

read_step-variable :
    (r : Text) → read_step (codes "CNIMBUS_FAILED_RULE=" ++ sh_quote r) ≡ set_variable r
unfolding read_step has_prefix eqt
read_step-variable r = ap (λ read. whole read variable_of) (read_command-sh_quote r)

read_step-command :
    (r : Text) → IsRead r → read_step (codes "$IPTABLES_CMD " ++ r) ≡ command (words_of r)
unfolding read_step has_prefix eqt IsRead
read_step-command r h = ap (λ read. whole read command) h

run_lines-set_variable :
    (runs : List Text → Bool) (l : Text) (ls : List Text) (st : ShellState) (r : Text)
    → read_step l ≡ set_variable r
    → run_lines runs (l ∷ ls) st ≡ run_lines runs ls (record st { current = r })
unfolding run_lines
run_lines-set_variable runs l ls st r h = rw (h, run_lines) refl

run_lines-command :
    (runs : List Text → Bool) (l : Text) (ls : List Text) (st : ShellState) (words : List Text)
    → read_step l ≡ command words
    → run_lines runs (l ∷ ls) st ≡ offer runs st (run_lines runs ls) words
unfolding run_lines
run_lines-command runs l ls st words h = rw (h, run_lines) refl

offered_rule :
    (runs : List Text → Bool) (handler r : Text) (installed : List (List Text)) (rules : List Text)
    → ((now : List (List Text))
        → run_lines runs (rule_lines rules) (strict handler r now)
          ≡ apply_rules runs handler now rules)
    → offer runs (strict handler r installed) (run_lines runs (rule_lines rules)) (words_of r)
      ≡ apply_rules runs handler installed (r ∷ rules)
unfolding apply_rules
offered_rule runs handler r installed rules h = elim (Bool-cases (runs (words_of r))) [
  | inl e ↦ rw (e, offer, apply_rules) (h (words_of r ∷ installed))
  | inr e ↦ rw (e, offer, apply_rules) refl
]

run_lines-rule_lines :
    (runs : List Text → Bool) (handler current : Text) (installed : List (List Text))
    (rules : List Text)
    → All IsRead rules
    → run_lines runs (rule_lines rules) (strict handler current installed)
      ≡ apply_rules runs handler installed rules
unfolding run_lines rule_lines apply_rules
run_lines-rule_lines runs handler current installed [] h = refl
run_lines-rule_lines runs handler current installed (r ∷ rules) h =
    let named = codes "CNIMBUS_FAILED_RULE=" ++ sh_quote r in
    let offered = codes "$IPTABLES_CMD " ++ r in
    let on = rule_lines rules in
    run_lines-set_variable runs named (offered ∷ on) (strict handler current installed) r
      (read_step-variable r)
    ∙ run_lines-command runs offered on (strict handler r installed) (words_of r)
        (read_step-command r h.0)
    ∙ offered_rule runs handler r installed rules
        (λ now. run_lines-rule_lines runs handler r now rules h.1)

rule_lines-OneLine : (rules : List Text) → All OneLine rules → All OneLine (rule_lines rules)
unfolding rule_lines contains
rule_lines-OneLine [] h = tt
rule_lines-OneLine (r ∷ rules) h = (sh_quote-OneLine r h.0, (h.0, rule_lines-OneLine rules h.1))

auto_rules-OneLine :
    (ipv6 : Bool) (rules : List Text) → All OneLine rules → All OneLine (auto_rules ipv6 ++ rules)
unfolding auto_rules icmpv6_ndp_auto_rules contains concat
auto_rules-OneLine false rules h = (refl, (refl, h))
auto_rules-OneLine true rules h = (
  refl,
  (refl, (refl, (refl, (refl, (refl, (refl, (refl, (refl, (refl, (refl, (refl, (refl, h)))))))))))),
)

head_lines-OneLine :
    (closed ipv6 : Bool) (ls : List Text)
    → All OneLine ls
    → All OneLine (head_lines closed ipv6 ++ ls)
unfolding head_lines closed_handler open_handler contains concat sh_quote replace_quotes
head_lines-OneLine true true ls h = (refl, (refl, (refl, (refl, h))))
head_lines-OneLine true false ls h = (refl, (refl, (refl, (refl, h))))
head_lines-OneLine false true ls h = (refl, (refl, (refl, (refl, h))))
head_lines-OneLine false false ls h = (refl, (refl, (refl, (refl, h))))

auto_rules-IsRead :
    (ipv6 : Bool) (rules : List Text) → All IsRead rules → All IsRead (auto_rules ipv6 ++ rules)
unfolding auto_rules icmpv6_ndp_auto_rules contains concat IsRead words_of read_command scan act
    is_plain
auto_rules-IsRead false rules h = (refl, (refl, h))
auto_rules-IsRead true rules h = (
  refl,
  (refl, (refl, (refl, (refl, (refl, (refl, (refl, (refl, (refl, (refl, (refl, (refl, h)))))))))))),
)

run_lines-head :
    (runs : List Text → Bool) (closed ipv6 : Bool) (ls : List Text)
    → run_lines runs (head_lines closed ipv6 ++ ls) new_shell
      ≡ run_lines runs ls (strict (handler_of closed) [] [])
unfolding run_lines read_step has_prefix read_command scan act head_lines closed_handler
    open_handler concat is_plain contains eqt sh_quote replace_quotes
run_lines-head runs true true ls = refl
run_lines-head runs true false ls = refl
run_lines-head runs false true ls = refl
run_lines-head runs false false ls = refl

-- Where no rule holds a newline and the shell reads each as words, a run of the script by a shell
-- offers the tool the words of the automatic rules and then of the given ones, in order. When the
-- tool refuses one, nothing after it is offered, the script names exactly that rule, and the
-- shell runs, when it leaves, the handler for FIREWALL_ON_ERROR: the closed one for "closed", the
-- open one for anything else.
pub run_script-build_firewall_script :
    (runs : List Text → Bool) (rules : List Text) (on_error : Text) (ipv6 : Bool)
    → All OneLine rules
    → All IsRead rules
    → run_script runs (build_firewall_script rules on_error ipv6)
      ≡ apply_rules runs (handler_for on_error) [] (auto_rules ipv6 ++ rules)
unfolding run_script build_firewall_script firewall_head
run_script-build_firewall_script runs rules on_error ipv6 h read =
    let closed = eqt on_error (codes "closed") in
    let all = auto_rules ipv6 ++ rules in
    let ls = rule_lines all in
    ap (λ script. run_lines runs script new_shell)
      (lines-unlines (head_lines closed ipv6 ++ ls) (
        head_lines-OneLine closed ipv6 ls
          (rule_lines-OneLine all (auto_rules-OneLine ipv6 rules h))))
    ∙ run_lines-head runs closed ipv6 ls
    ∙ run_lines-rule_lines runs (handler_of closed) [] [] all (auto_rules-IsRead ipv6 rules read)
