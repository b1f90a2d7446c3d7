-- ===== src/Nimbus/Parse/Failures.antt =====
-- The line that an error of `Parse` names.
use mathlib.Core.Path.{subst}
use cnimbus.Common.{
  List, Result, Result-cases, [], arith, err, inl, inr, length, ok, some, ℕ, ◌<◌, ◌≡◌, ◌≢◌, ◌≤◌,
}
use cnimbus.Common.Text.{Text}
use cnimbus.Nimbus.Args.{Values}
use cnimbus.Nimbus.Lines.{LogicalLine, join_continuations, physical_lines}
use cnimbus.Nimbus.Lines.Numbers.{Numbered, done, join_continuations-Numbered, line}
use cnimbus.Nimbus.Parse.{
  Failure, State, at_end, at_line, finish, initial, parse, parse_line, parse_lines, unreadable,
}
use cnimbus.Nimbus.Types.{Nimbusfile, Reason, Runtime}

abbrev LinesWithin : ℕ → Failure → Type 0
LinesWithin hi unreadable = Unit
LinesWithin hi (at_line n why) = (0 < n) × (n ≤ hi)
LinesWithin hi (at_end why) = Unit

abbrev FailsWithin : ℕ → Result Failure State → Type 0
FailsWithin hi (ok s) = Unit
FailsWithin hi (err f) = LinesWithin hi f

finish-ne_at_line : (hf : Nimbusfile) {n : ℕ} {why : Reason} → finish hf ≢ err (at_line n why)
unfolding finish
finish-ne_at_line hf = ground arith

module _ (rt : Runtime) (args : Values) where
  parse_lines-FailsWithin :
      {hi lo : ℕ} {ls : List LogicalLine} (s : State)
      → Numbered hi lo ls
      → FailsWithin hi (parse_lines rt args ls s)
  unfolding parse_lines
  parse_lines-FailsWithin s done = tt
  parse_lines-FailsWithin s (line {l} {ls} a b n) =
      elim (Result-cases (parse_line rt args l.text s)) [
        | inl (s', e) ↦ rw e (parse_lines-FailsWithin s' n)
        | inr (x, e) ↦ rw e (omega arith, b)
      ]

  -- An error of `parse` that names a line names one of the file's physical lines, counted from 1.
  pub parse-error_line :
      (path src : Text) {n : ℕ} {why : Reason}
      → parse rt path (some src) args ≡ err (at_line n why)
      → (1 ≤ n) × (n ≤ length (physical_lines src))
  unfolding parse finish
  parse-error_line path src {n} {why} e =
      let start : State = record { hf = initial path; values = [] } in
      let within = parse_lines-FailsWithin start (join_continuations-Numbered src) in
      elim (Result-cases (parse_lines rt args (join_continuations src) start)) [
        | inl (s, x) ↦ absurd (finish-ne_at_line s.hf (rw x at e))
        | inr (f, x) ↦
            let q : f ≡ at_line n why = cc (rw x at e) in
            subst (LinesWithin (length (physical_lines src))) q (rw x at within)
      ]
