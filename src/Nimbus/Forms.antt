-- ===== src/Nimbus/Forms.antt =====
-- `parseExecForm`, `parseHealthcheckFlags` and `cutHeader`.
pub mod Flags
use cnimbus.Common.{
  Bool, List, Option, Result, [], err, false, if◌then◌else◌, length, none, not, ok, some, suc, true,
  zero, ℕ, ◌+◌, ◌==◌, ◌||◌, ◌∷◌,
}
use cnimbus.Common.Number.{atoi}
use cnimbus.Common.Text.{Text, codes, cut, fields, has_prefix, trim_prefix, trim_space}
use cnimbus.Nimbus.Lines.{is_empty}
use cnimbus.Nimbus.Types.{Reason, Runtime, bad_exec_form, bad_flag_value, no_command, out_of_fuel}

abbrev or_bad_exec_form : Option (List Text) → Result Reason (List Text)
or_bad_exec_form none = err bad_exec_form
or_bad_exec_form (some args) = ok args

-- On the trimmed text.
unfoldable pub exec_form : Runtime → Text → Result Reason (List Text)
unfolding fields
exec_form rt [] = err no_command
exec_form rt (c ∷ s) =
    if c == b'[' then or_bad_exec_form (rt.json_strings (c ∷ s)) else ok (fields (c ∷ s))

unfoldable pub parse_exec_form : Runtime → Text → Result Reason (List Text)
unfolding exec_form trim_space
parse_exec_form rt s = exec_form rt (trim_space s)

pub record HealthcheckFlags : Type 0 where
  pub remaining : Text
  pub interval : Text
  pub retries : Text

abbrev pub interval_prefix : Text
interval_prefix = codes "--interval="

abbrev pub retries_prefix : Text
retries_prefix = codes "--retries="

-- The value of the flag at the front of `rest`, if it is an integer.
unfoldable pub flag_value : Text → Text → Option Text
unfolding cut trim_prefix atoi
flag_value prefix rest =
    let val = trim_prefix (cut b' ' rest).before prefix in
    elim (atoi val) [ none ↦ none | some n ↦ some val ]

abbrev pub set_flag : Bool → Text → HealthcheckFlags → HealthcheckFlags
set_flag true val s = record s { interval = val }
set_flag false val s = record s { retries = val }

-- One pass of the loop's body at trimmed text: `ok (some s)` goes round again.
unfoldable pub take_flag : HealthcheckFlags → Result Reason (Option HealthcheckFlags)
take_flag s =
    let is_interval = has_prefix s.remaining interval_prefix in
    let prefix = if is_interval then interval_prefix else retries_prefix in
    if not (is_interval || has_prefix s.remaining retries_prefix)
    then ok none
    else elim (flag_value prefix s.remaining) [
      | none ↦ err bad_flag_value
      | some val ↦
          ok (
            some (set_flag is_interval val (record s { remaining = (cut b' ' s.remaining).after })))
    ]

abbrev pub trimmed : HealthcheckFlags → HealthcheckFlags
trimmed s = record s { remaining = trim_space s.remaining }

-- `again` is what the loop does after another round.
abbrev pub go_on :
    HealthcheckFlags
    → (HealthcheckFlags → Result Reason HealthcheckFlags)
    → Result Reason (Option HealthcheckFlags)
    → Result Reason HealthcheckFlags
go_on s again (err e) = err e
go_on s again (ok none) = ok s
go_on s again (ok (some s')) = again s'

unfoldable pub flags_loop : ℕ → HealthcheckFlags → Result Reason HealthcheckFlags
unfolding take_flag trim_space
flags_loop zero s = err out_of_fuel
flags_loop (suc fuel) s = go_on (trimmed s) (flags_loop fuel) (take_flag (trimmed s))

abbrev pub default_flags : Text → HealthcheckFlags
default_flags rest = record { remaining = rest; interval = codes "30"; retries = codes "3" }

-- Each round takes a character at least.
unfoldable pub parse_healthcheck_flags : Text → Result Reason HealthcheckFlags
unfolding flags_loop flag_value has_prefix cut
parse_healthcheck_flags rest = flags_loop (length rest + 1) (default_flags rest)

pub record Header : Type 0 where
  pub name : Text
  pub value : Text

abbrev both_given : Text → Text → Option Header
both_given n v = if is_empty n || is_empty v then none else some (record { name = n; value = v })

-- `none` where Go returns a false `ok`
unfoldable pub cut_header : Text → Option Header
unfolding cut trim_space
cut_header s =
    let at_colon = cut b':' s in
    let at_space = cut b' ' s in
    if at_colon.found
    then both_given (trim_space at_colon.before) (trim_space at_colon.after)
    else if not at_space.found
    then none
    else both_given (trim_space at_space.before) (trim_space at_space.after)
