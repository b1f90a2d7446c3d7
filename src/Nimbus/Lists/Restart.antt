-- ===== src/Nimbus/Lists/Restart.antt =====
-- Which service a RESTART line changes.
use cnimbus.Common.{
  All, Bool-cases, List, Option, Option-cases, Result, [], ap, arith, err, inl, inr, none, ok, refl,
  some, ◌++◌, ◌∷◌, ◌≡◌, ◌≢◌,
}
use cnimbus.Common.Text.{Text, codes, eqt, eqt_iff, fields}
use cnimbus.Nimbus.Checks.{member}
use cnimbus.Nimbus.Lists.{apply_restart, policies, restart_by, set_restart, with_services}
use cnimbus.Nimbus.Types.{Nimbusfile, Reason, Service, bad_policy, no_such_service, restart_fields}
use cnimbus.Nimbus.Valid.{OneOf}
use cnimbus.Nimbus.Valid.Tests.{OneOf→member, member→OneOf}

-- `after` is `before` with the policy of the first service called `target` replaced.
pub record FirstSet (target policy : Text) (before after : List Service) : Type 0 where
  pub pre : List Service
  pub hit : Service
  pub post : List Service
  pub splits : before ≡ pre ++ hit ∷ post
  pub named : hit.name ≡ target
  pub first : All (λ s. s.name ≢ target) pre
  pub result : after ≡ pre ++ (record hit { restart = policy } ∷ post)

abbrev RestartSpec : Text → Text → List Service → Option (List Service) → Type 0
RestartSpec target policy ss none = All (λ s. s.name ≢ target) ss
RestartSpec target policy ss (some ss') = FirstSet target policy ss ss'

FirstSet-cons :
    {target policy : Text} (s : Service) {ss ss' : List Service}
    → s.name ≢ target
    → FirstSet target policy ss ss'
    → FirstSet target policy (s ∷ ss) (s ∷ ss')
FirstSet-cons s ne f = record {
  pre = s ∷ f.pre;
  hit = f.hit;
  post = f.post;
  splits = ap (◌∷◌ s) f.splits;
  named = f.named;
  first = (ne, f.first);
  result = ap (◌∷◌ s) f.result;
}

set_restart-RestartSpec :
    (target policy : Text) (ss : List Service)
    → RestartSpec target policy ss (set_restart target policy ss)
unfolding set_restart
set_restart-RestartSpec target policy [] = tt
set_restart-RestartSpec target policy (s ∷ ss) = elim (Bool-cases (eqt s.name target)) [
  | inl e ↦ rw e (record {
    pre = [];
    hit = s;
    post = ss;
    splits = refl;
    named = (eqt_iff s.name target).0 e;
    first = tt;
    result = refl;
  })
  | inr e ↦
      let ne : s.name ≢ target = ground (arith, eqt_iff s.name target) in
      let ih = set_restart-RestartSpec target policy ss in
      elim (Option-cases (set_restart target policy ss)) [
        | inl x ↦ rw (e, x) (ne, rw x at ih)
        | inr (ss', x) ↦ rw (e, x) (FirstSet-cons s ne (rw x at ih))
      ]
]

-- What the line RESTART `target policy` does to a manifest.
pub data RestartRun (target policy : Text) (hf : Nimbusfile) (r : Result Reason Nimbusfile)
    : Type 0 where
  policy_refused : ¬ OneOf policy policies → r ≡ err bad_policy → RestartRun target policy hf r
  entrypoint_set :
      OneOf policy policies
      → target ≡ codes "entrypoint"
      → r ≡ ok (record hf { entrypoint_restart = policy })
      → RestartRun target policy hf r
  service_refused :
      OneOf policy policies
      → target ≢ codes "entrypoint"
      → All (λ s. s.name ≢ target) hf.services
      → r ≡ err no_such_service
      → RestartRun target policy hf r
  service_set :
      (ss : List Service)
      → OneOf policy policies
      → target ≢ codes "entrypoint"
      → FirstSet target policy hf.services ss
      → r ≡ ok (record hf { services = ss })
      → RestartRun target policy hf r

abbrev pub RestartLine : List Text → Nimbusfile → Result Reason Nimbusfile → Type 0
RestartLine (target ∷ policy ∷ []) hf r = RestartRun target policy hf r
RestartLine _ hf r = r ≡ err restart_fields

service_run :
    (target policy : Text) (hf : Nimbusfile) (o : Option (List Service))
    → OneOf policy policies
    → target ≢ codes "entrypoint"
    → RestartSpec target policy hf.services o
    → RestartRun target policy hf (with_services o hf)
service_run target policy hf none good other h = service_refused good other h refl
service_run target policy hf (some ss) good other h = service_set ss good other h refl

restart_by-RestartLine : (fs : List Text) (hf : Nimbusfile) → RestartLine fs hf (restart_by fs hf)
restart_by-RestartLine [] hf = refl
restart_by-RestartLine (f ∷ []) hf = refl
restart_by-RestartLine (f ∷ g ∷ h ∷ fs) hf = refl
restart_by-RestartLine (target ∷ policy ∷ []) hf = elim (Bool-cases (member policy policies)) [
  | inl good ↦ elim (Bool-cases (eqt target (codes "entrypoint"))) [
    | inl named ↦
        rw (good, named)
          (entrypoint_set (member→OneOf policy policies good)
            ((eqt_iff target (codes "entrypoint")).0 named) refl)
    | inr other ↦
        let distinct : target ≢ codes "entrypoint" =
          ground (arith, eqt_iff target (codes "entrypoint")) in
        rw (good, other)
          (service_run target policy hf (set_restart target policy hf.services)
            (member→OneOf policy policies good) distinct
            (set_restart-RestartSpec target policy hf.services))
  ]
  | inr bad ↦
      let unknown : ¬ OneOf policy policies = λ h. ground (arith, OneOf→member policy policies h) in
      rw bad (policy_refused unknown refl)
]

-- A RESTART line has two fields, or is refused. It is refused for a policy other than always,
-- on-failure and no; it changes the policy of the entrypoint for that name; for any other name it
-- changes the policy of the first service of the name and nothing else of the manifest, and is
-- refused exactly when no service declared so far has it.
pub apply_restart-RestartLine :
    (rest : Text) (hf : Nimbusfile) → RestartLine (fields rest) hf (apply_restart rest hf)
unfolding apply_restart
apply_restart-RestartLine rest hf = restart_by-RestartLine (fields rest) hf
