-- ===== src/Nimbus/Forms/Flags.antt =====
-- The loop of `parseHealthcheckFlags` ends: each round cuts a flag off the front.
use mathlib.Core.List.{reverse}
use cnimbus.Common.{
  Option, Result, [], arith, err, length, none, ok, refl, some, suc, true, zero, ℕ, ◌+◌, ◌<◌, ◌∷◌,
  ◌≡◌, ◌≢◌, ◌≤◌,
}
use cnimbus.Common.Text.{
  Text, codes, cut, has_prefix, is_space, length-reverse_text, length-trim_left, trim_left,
  trim_space,
}
use cnimbus.Nimbus.Forms.{
  HealthcheckFlags, default_flags, flags_loop, go_on, parse_healthcheck_flags, take_flag, trimmed,
}
use cnimbus.Nimbus.Types.{Reason, out_of_fuel}

pub length-trim_space : (s : Text) → length (trim_space s) ≤ length s
unfolding trim_space
length-trim_space s =
    let inner = trim_left is_space s in
    omega (
      arith,
      length-reverse_text (trim_left is_space (reverse inner)),
      length-trim_left is_space (reverse inner),
      length-reverse_text inner,
      length-trim_left is_space s,
    )

length-cut_after : (sep : ℕ) (s : Text) → length (cut sep s).after ≤ length s
unfolding cut
length-cut_after sep [] = omega arith
length-cut_after sep (c ∷ s) = ground (arith, length-cut_after sep s)

-- Behind the separator there is less than before, unless there was nothing.
cut_after-shrinks : (sep : ℕ) (s : Text) → s ≢ [] → length (cut sep s).after < length s
unfolding cut
cut_after-shrinks sep [] ne = absurd (ne refl)
cut_after-shrinks sep (c ∷ s) ne = ground (arith, length-cut_after sep s)

has_prefix-ne_nil : (s : Text) (p : ℕ) (ps : Text) → has_prefix s (p ∷ ps) ≡ true → s ≢ []
unfolding has_prefix
has_prefix-ne_nil [] p ps h = cc
has_prefix-ne_nil (c ∷ s) p ps h = cc

-- Another round is made only on a shorter text.
take_flag-shrinks :
    (s : HealthcheckFlags) {s' : HealthcheckFlags}
    → take_flag s ≡ ok (some s')
    → length s'.remaining < length s.remaining
unfolding take_flag
take_flag-shrinks s e = ground (
  arith,
  cut_after-shrinks b' ' s.remaining,
  has_prefix-ne_nil s.remaining b'-' (codes "-interval="),
  has_prefix-ne_nil s.remaining b'-' (codes "-retries="),
)

take_flag-ne_out_of_fuel : (s : HealthcheckFlags) → take_flag s ≢ err out_of_fuel
unfolding take_flag
take_flag-ne_out_of_fuel s = ground arith

go_on-ne_out_of_fuel :
    (s : HealthcheckFlags) (again : HealthcheckFlags → Result Reason HealthcheckFlags)
    (r : Result Reason (Option HealthcheckFlags))
    → r ≢ err out_of_fuel
    → ((s' : HealthcheckFlags) → r ≡ ok (some s') → again s' ≢ err out_of_fuel)
    → go_on s again r ≢ err out_of_fuel
go_on-ne_out_of_fuel s again (err e) ne k = λ h. ne (cc h)
go_on-ne_out_of_fuel s again (ok none) ne k = cc
go_on-ne_out_of_fuel s again (ok (some s')) ne k = k s' refl

flags_loop-ne_out_of_fuel :
    (fuel : ℕ) (s : HealthcheckFlags)
    → length s.remaining < fuel
    → flags_loop fuel s ≢ err out_of_fuel
unfolding flags_loop
flags_loop-ne_out_of_fuel zero s h = elim h [ ]
flags_loop-ne_out_of_fuel (suc fuel) s h =
    go_on-ne_out_of_fuel (trimmed s) (flags_loop fuel) (take_flag (trimmed s))
      (take_flag-ne_out_of_fuel (trimmed s))
      (λ s' e.
        flags_loop-ne_out_of_fuel fuel s'
          (omega (arith, take_flag-shrinks (trimmed s) e, length-trim_space s.remaining)))

-- The rounds that the model allows are enough: the loop ends with flags or with a refusal.
pub parse_healthcheck_flags-ends : (rest : Text) → parse_healthcheck_flags rest ≢ err out_of_fuel
unfolding parse_healthcheck_flags
parse_healthcheck_flags-ends rest =
    flags_loop-ne_out_of_fuel (length rest + 1) (default_flags rest) (omega arith)
