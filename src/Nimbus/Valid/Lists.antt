-- ===== src/Nimbus/Valid/Lists.antt =====
-- Every directive that adds to a list, or sets a command or a restart policy, keeps the invariant.
use cnimbus.Common.{
  All, All-concat, Bool, Bool-cases, Holds, Holds-any, Holds-bind, List, Option, Option-cases,
  Result-cases, [], arith, if◌then◌else◌, inl, inr, ltb, none, not, refl, some, true, ℕ, ◌++◌, ◌||◌,
  ◌∷◌, ◌≡◌, ◌≢◌, ◌≤◌,
}
use cnimbus.Common.Number.{atoi, negsuc, pos, ℤ}
use cnimbus.Common.Text.{Text, codes, cut, fields}
use cnimbus.Nimbus.Checks.{member}
use cnimbus.Nimbus.Forms.{parse_exec_form, parse_healthcheck_flags}
use cnimbus.Nimbus.Lists.{
  add_port, apply_cmd, apply_dns, apply_entrypoint, apply_env, apply_expose, apply_firewall,
  apply_firewall6, apply_healthcheck, apply_label, apply_ntp, apply_restart, apply_service,
  apply_volume, fs_types, key_value, policies, restart_by, set_restart, strip_required, volume_by,
}
use cnimbus.Nimbus.Types.{Nimbusfile, Runtime, Service}
use cnimbus.Nimbus.Valid.{
  HasKey, IsGiven, IsHealthcheck, IsPort, IsSafeRule, IsService, IsValid, IsVolume, Keeps, OneOf,
}
use cnimbus.Nimbus.Valid.Health.{HasIntegers, parse_healthcheck_flags-HasIntegers}
use cnimbus.Nimbus.Valid.Tests.{is_empty→ne, member→OneOf, validate_firewall_rule-IsSafeRule}
use cnimbus.Pieces.World.{required}

key_value-HasKey : (rest : Text) → Holds HasKey (key_value rest)
unfolding key_value HasKey
key_value-HasKey rest = ground (arith, is_empty→ne (cut b'=' rest).before)

set_restart-All :
    (target policy : Text) (ss : List Service) {ss' : List Service}
    → OneOf policy ([] ∷ policies)
    → All IsService ss
    → set_restart target policy ss ≡ some ss'
    → All IsService ss'
unfolding set_restart IsService
set_restart-All target policy [] p h e = cc
set_restart-All target policy (s ∷ ss) p h e = elim (Option-cases (set_restart target policy ss)) [
  | inl x ↦ ground arith
  | inr (ss1, x) ↦ ground (arith, set_restart-All target policy ss {ss' = ss1} p h.1 x)
]

policy-OneOf : (policy : Text) → member policy policies ≡ true → OneOf policy ([] ∷ policies)
unfolding OneOf
policy-OneOf policy h = inr (member→OneOf policy policies h)

vfat-OneOf : OneOf (codes "vfat") fs_types
unfolding OneOf
vfat-OneOf = inl refl

module _ (rt : Runtime) where
  pub apply_dns-IsValid : Keeps rt (apply_dns rt)
  unfolding apply_dns
  apply_dns-IsValid rest hf v = ground (arith, All-concat (λ s. rt.is_ip s ≡ true) hf.dns rest)

  pub apply_ntp-IsValid : Keeps rt apply_ntp
  unfolding apply_ntp IsGiven
  apply_ntp-IsValid rest hf v =
      ground (arith, is_empty→ne rest, All-concat IsGiven hf.ntp rest v.ntp)

  pub apply_label-IsValid : Keeps rt apply_label
  unfolding apply_label
  apply_label-IsValid rest hf v =
      Holds-bind HasKey (IsValid rt) (key_value rest) _ (key_value-HasKey rest)
        (λ x p. ground (arith, All-concat HasKey hf.labels x v.labels p))

  pub apply_env-IsValid : Keeps rt apply_env
  unfolding apply_env
  apply_env-IsValid rest hf v =
      Holds-bind HasKey (IsValid rt) (key_value rest) _ (key_value-HasKey rest)
        (λ x p. ground (arith, All-concat HasKey hf.env x v.env p))

  pub apply_healthcheck-IsValid : Keeps rt (apply_healthcheck rt)
  unfolding apply_healthcheck IsHealthcheck
  apply_healthcheck-IsValid rest hf v =
      Holds-bind HasIntegers (IsValid rt) (parse_healthcheck_flags rest) _
        (parse_healthcheck_flags-HasIntegers rest)
        (λ flags h.
          Holds-any (IsValid rt) (parse_exec_form rt flags.remaining) _ (λ argv. ground arith))

  pub apply_entrypoint-IsValid : Keeps rt (apply_entrypoint rt)
  unfolding apply_entrypoint
  apply_entrypoint-IsValid rest hf v = ground arith

  pub apply_cmd-IsValid : Keeps rt (apply_cmd rt)
  unfolding apply_cmd
  apply_cmd-IsValid rest hf v = ground arith

  pub apply_firewall-IsValid : Keeps rt apply_firewall
  unfolding apply_firewall
  apply_firewall-IsValid rest hf v =
      ground (arith, validate_firewall_rule-IsSafeRule rest, All-concat IsSafeRule hf.firewall rest)

  pub apply_firewall6-IsValid : Keeps rt apply_firewall6
  unfolding apply_firewall6
  apply_firewall6-IsValid rest hf v =
      ground
        (arith, validate_firewall_rule-IsSafeRule rest, All-concat IsSafeRule hf.firewall6 rest)

  set_port-IsValid :
      (port : ℕ) (proto : Text) (hf : Nimbusfile)
      → 1 ≤ port
      → port ≤ 65535
      → OneOf proto (codes "tcp" ∷ codes "udp" ∷ [])
      → IsValid rt hf
      → IsValid rt
          (record hf { exposed = hf.exposed ++ (record { port = port; proto = proto } ∷ []) })
  unfolding IsPort
  set_port-IsValid port proto hf lo hi o v = ground (
    arith,
    All-concat IsPort hf.exposed (record { port = port; proto = proto }) v.exposed (lo, hi, o),
  )

  add_port-IsValid :
      (o : Option ℤ) (proto : Text) (hf : Nimbusfile)
      → OneOf proto (codes "tcp" ∷ codes "udp" ∷ [])
      → IsValid rt hf
      → Holds (IsValid rt) (add_port o proto hf)
  add_port-IsValid none proto hf o v = tt
  add_port-IsValid (some (negsuc n)) proto hf o v = tt
  add_port-IsValid (some (pos port)) proto hf o v =
      elim (Bool-cases (ltb port 1 || ltb 65535 port)) [
        | inl bad ↦ rw bad tt
        | inr good ↦ rw good (set_port-IsValid port proto hf (ground arith) (ground arith) o v)
      ]

  pub apply_expose-IsValid : Keeps rt apply_expose
  unfolding apply_expose
  apply_expose-IsValid rest hf v =
      let c = cut b'/' rest in
      let proto : Text = if not c.found then codes "tcp" else c.after in
      ground (
        arith,
        member→OneOf proto (codes "tcp" ∷ codes "udp" ∷ []),
        add_port-IsValid (atoi c.before) proto hf,
      )

  restart_by-IsValid :
      (fs : List Text) (hf : Nimbusfile) → IsValid rt hf → Holds (IsValid rt) (restart_by fs hf)
  restart_by-IsValid (target ∷ policy ∷ []) hf v =
      elim (Option-cases (set_restart target policy hf.services)) [
        | inl e ↦ ground (arith, member→OneOf policy policies)
        | inr (ss, e) ↦ ground (
          arith,
          member→OneOf policy policies,
          policy-OneOf policy,
          set_restart-All target policy hf.services {ss' = ss},
        )
      ]
  restart_by-IsValid [] hf v = tt
  restart_by-IsValid (a ∷ []) hf v = tt
  restart_by-IsValid (a ∷ b ∷ c ∷ fs) hf v = tt

  pub apply_restart-IsValid : Keeps rt apply_restart
  unfolding apply_restart
  apply_restart-IsValid rest hf v = restart_by-IsValid (fields rest) hf v

  volume_by-IsValid :
      (fs : List Text) (required : Bool) (hf : Nimbusfile)
      → IsValid rt hf
      → Holds (IsValid rt) (volume_by fs required hf)
  unfolding IsVolume
  volume_by-IsValid (d ∷ m ∷ []) required hf v = ground (
    arith,
    vfat-OneOf,
    All-concat IsVolume hf.volumes
        (record { device = d; mountpoint = m; fs_type = codes "vfat"; required = required }),
  )
  volume_by-IsValid (d ∷ m ∷ t ∷ []) required hf v = ground (
    arith,
    member→OneOf t fs_types,
    All-concat IsVolume hf.volumes
        (record { device = d; mountpoint = m; fs_type = t; required = required }),
  )
  volume_by-IsValid [] required hf v = tt
  volume_by-IsValid (a ∷ []) required hf v = tt
  volume_by-IsValid (a ∷ b ∷ c ∷ d ∷ fs) required hf v = tt

  pub apply_volume-IsValid : Keeps rt apply_volume
  unfolding apply_volume
  apply_volume-IsValid rest hf v =
      let f = strip_required (fields rest) in volume_by-IsValid f.others f.required hf v

  new_service-IsValid :
      (name : Text) (args : List Text) (hf : Nimbusfile)
      → name ≢ []
      → IsValid rt hf
      → IsValid rt (record hf {
        services = hf.services ++ (record { name = name; argv = args; restart = [] } ∷ []);
      })
  unfolding IsService OneOf
  new_service-IsValid name args hf ne v = ground (
    arith,
    All-concat IsService hf.services (record { name = name; argv = args; restart = [] }) v.services
        (ne, inl refl),
  )

  pub apply_service-IsValid : Keeps rt (apply_service rt)
  unfolding apply_service
  apply_service-IsValid rest hf v =
      let c = cut b' ' rest in
      elim (Result-cases (parse_exec_form rt c.after)) [
        | inl (args, e) ↦ ground (arith, is_empty→ne c.before, new_service-IsValid c.before args hf)
        | inr (x, e) ↦ ground arith
      ]
