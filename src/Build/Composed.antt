-- ===== src/Build/Composed.antt =====
-- The firewall of an image, from the text of its manifest to the rules that its kernel has.
use cnimbus.Build.Spec.{BuildInputs, spec_of}
use cnimbus.Common.{All, Bool, List, Option, [], arith, false, ok, refl, true, ◌++◌, ◌∷◌, ◌≡◌, ◌≢◌}
use cnimbus.Common.Text.{Text, contains}
use cnimbus.Nimbus.Args.{Values}
use cnimbus.Nimbus.Parse.{parse}
use cnimbus.Nimbus.Types.{Nimbusfile, Runtime}
use cnimbus.Nimbus.Valid.{IsSafeRule, IsSafeRule-newline}
use cnimbus.Nimbus.Valid.Parse.{parse-IsValid}
use cnimbus.Scripts.Firewall.{auto_rules, build_firewall_script}
use cnimbus.Scripts.LineBreaks.{OneLine}
use cnimbus.Scripts.Rules.{
  IsRead, apply_rules, handler_for, run_script, run_script-build_firewall_script,
}

OneLine-all : (s : Text) → All (λ c. c ≢ 10) s → OneLine s
unfolding contains
OneLine-all [] h = refl
OneLine-all (c ∷ s) h = ground (arith, h.0, OneLine-all s h.1)

OneLine-rules : (rules : List Text) → All IsSafeRule rules → All OneLine rules
OneLine-rules [] h = tt
OneLine-rules (r ∷ rules) h = (OneLine-all r (IsSafeRule-newline r h.0), OneLine-rules rules h.1)

-- For every text that Parse accepts and whose FIREWALL and FIREWALL6 rules the shell reads as words
-- (an accepted rule can hold an unmatched quote, of which this says nothing), a run of the script
-- of its FIREWALL lines offers the tool the automatic rules and then the manifest's, in order. When
-- the tool refuses one, nothing after it is offered, the script names exactly that rule, and the
-- shell runs, when it leaves, the handler for the manifest's FIREWALL_ON_ERROR; the same holds for
-- its FIREWALL6 lines.
pub run_script-parse :
    (rt : Runtime) (path : Text) (source_text : Option Text) (args : Values) (inputs : BuildInputs)
    (runs : List Text → Bool) {hf : Nimbusfile}
    → parse rt path source_text args ≡ ok hf
    → All IsRead hf.firewall
    → All IsRead hf.firewall6
    → (run_script runs (
          build_firewall_script
            (spec_of inputs hf).firewall
            (spec_of inputs hf).firewall_on_error
            false)
        ≡ apply_rules runs (handler_for hf.firewall_on_error) [] (auto_rules false ++ hf.firewall))
      × (run_script runs (
            build_firewall_script
              (spec_of inputs hf).firewall6
              (spec_of inputs hf).firewall_on_error
              true)
          ≡ apply_rules runs
              (handler_for hf.firewall_on_error)
              []
              (auto_rules true ++ hf.firewall6))
unfolding spec_of
run_script-parse rt path source_text args inputs runs {hf} e read read6 =
    let valid = (parse-IsValid rt path source_text args e).0 in
    (
      run_script-build_firewall_script runs hf.firewall hf.firewall_on_error false
          (OneLine-rules hf.firewall valid.firewall) read,
      run_script-build_firewall_script runs hf.firewall6 hf.firewall_on_error true
          (OneLine-rules hf.firewall6 valid.firewall6) read6,
    )
