-- ===== src/Nimbus/Valid/Health.antt =====
-- The flags of HEALTHCHECK that the parser accepts are integers.
use mathlib.Core.Path.{subst}
use cnimbus.Common.{
  Bool, Bool-cases, Holds, Option, Result, err, false, if◌then◌else◌, inl, inr, length, none, not,
  ok, refl, some, suc, true, zero, ℕ, ◌+◌, ◌||◌, ◌≡◌,
}
use cnimbus.Common.Number.{atoi, ℤ}
use cnimbus.Common.Text.{Text, cut, has_prefix, trim_prefix}
use cnimbus.Nimbus.Forms.{
  HealthcheckFlags, default_flags, flag_value, flags_loop, go_on, interval_prefix,
  parse_healthcheck_flags, retries_prefix, set_flag, take_flag, trimmed,
}
use cnimbus.Nimbus.Types.{Reason, bad_flag_value}
use cnimbus.Nimbus.Valid.{IsInteger}

abbrev pub HasIntegers : HealthcheckFlags → Type 0
HasIntegers s = IsInteger s.interval × IsInteger s.retries

atoi-IsInteger :
    (val : Text) (o : Option ℤ) {v : Text}
    → atoi val ≡ o
    → elim o [ none ↦ none | some n ↦ some val ] ≡ some v
    → IsInteger v
unfolding IsInteger
atoi-IsInteger val none read h = cc
atoi-IsInteger val (some n) {v} read h =
    let same : val ≡ v = cc in (n, subst (λ s. atoi s ≡ some n) same read)

flag_value-IsInteger :
    (prefix rest : Text) {val : Text} → flag_value prefix rest ≡ some val → IsInteger val
unfolding flag_value
flag_value-IsInteger prefix rest h =
    let val = trim_prefix (cut b' ' rest).before prefix in atoi-IsInteger val (atoi val) refl h

-- What a round gives is flags that are integers, if it goes round again.
abbrev Took : Option HealthcheckFlags → Type 0
Took none = Unit
Took (some s) = HasIntegers s

Took-value :
    (is_interval : Bool) (prefix left : Text) (s : HealthcheckFlags) (o : Option Text)
    → flag_value prefix s.remaining ≡ o
    → HasIntegers s
    → Holds Took (elim o [
      | none ↦ err bad_flag_value
      | some val ↦ ok (some (set_flag is_interval val (record s { remaining = left })))
    ])
Took-value is_interval prefix left s none e h = tt
Took-value true prefix left s (some val) e h = (flag_value-IsInteger prefix s.remaining e, h.1)
Took-value false prefix left s (some val) e h = (h.0, flag_value-IsInteger prefix s.remaining e)

take_flag-Took : (s : HealthcheckFlags) → HasIntegers s → Holds Took (take_flag s)
unfolding take_flag
take_flag-Took s h =
    let is_interval = has_prefix s.remaining interval_prefix in
    let prefix = if is_interval then interval_prefix else retries_prefix in
    elim (Bool-cases (not (is_interval || has_prefix s.remaining retries_prefix))) [
      | inl e ↦ rw e tt
      | inr e ↦ rw e (
          Took-value is_interval prefix (cut b' ' s.remaining).after s
            (flag_value prefix s.remaining) refl h)
    ]

go_on-HasIntegers :
    (s : HealthcheckFlags) (again : HealthcheckFlags → Result Reason HealthcheckFlags)
    (r : Result Reason (Option HealthcheckFlags))
    → HasIntegers s
    → Holds Took r
    → ((s' : HealthcheckFlags) → HasIntegers s' → Holds HasIntegers (again s'))
    → Holds HasIntegers (go_on s again r)
go_on-HasIntegers s again (err e) h took k = tt
go_on-HasIntegers s again (ok none) h took k = h
go_on-HasIntegers s again (ok (some s')) h took k = k s' took

flags_loop-HasIntegers :
    (fuel : ℕ) (s : HealthcheckFlags) → HasIntegers s → Holds HasIntegers (flags_loop fuel s)
unfolding flags_loop
flags_loop-HasIntegers zero s h = tt
flags_loop-HasIntegers (suc fuel) s h =
    go_on-HasIntegers (trimmed s) (flags_loop fuel) (take_flag (trimmed s)) h
      (take_flag-Took (trimmed s) h) (λ s' took. flags_loop-HasIntegers fuel s' took)

pub parse_healthcheck_flags-HasIntegers :
    (rest : Text) → Holds HasIntegers (parse_healthcheck_flags rest)
unfolding parse_healthcheck_flags IsInteger atoi
parse_healthcheck_flags-HasIntegers rest =
    flags_loop-HasIntegers (length rest + 1) (default_flags rest) ((_, refl), (_, refl))
