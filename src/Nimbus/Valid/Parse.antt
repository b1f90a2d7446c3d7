-- ===== src/Nimbus/Valid/Parse.antt =====
-- The whole parser: what `Parse` returns is valid.
use mathlib.Core.List.{map}
use cnimbus.Common.{
  Bool-cases, Holds, Holds-bind, Holds-map_err, Holds-ok, List, Option, Result-cases, [], arith,
  false, inl, inr, none, ok, some, true, ◌∷◌, ◌≡◌, ◌≢◌,
}
use cnimbus.Common.Text.{Text, codes, cut, eqt_iff, trim_space, upper, utf8_len}
use cnimbus.Nimbus.Args.{Values, substitute_args}
use cnimbus.Nimbus.Checks.{has_wifi_driver}
use cnimbus.Nimbus.Directive.{Directive, directive_of}
use cnimbus.Nimbus.Lines.{LogicalLine, join_continuations}
use cnimbus.Nimbus.Parse.{
  State, any_wifi, apply, at_line, declare_arg, default_ntp, finish, initial, lacks_wifi, parse,
  parse_line, parse_lines, run_directive, validate_wifi_cross_refs,
}
use cnimbus.Nimbus.Settings.{boot_profiles}
use cnimbus.Nimbus.Types.{Nimbusfile, Runtime}
use cnimbus.Nimbus.Valid.{
  Avoids, IsAgent, IsCountry, IsGiven, IsHealthcheck, IsPsk, IsSsid, IsStaticIp, IsUnsetOr, IsValid,
  Keeps, OneOf, WifiAgrees,
}
use cnimbus.Nimbus.Valid.Agents.{apply_agent-IsValid}
use cnimbus.Nimbus.Valid.Copies.{apply_copy-IsValid}
use cnimbus.Nimbus.Valid.Lists.{
  apply_cmd-IsValid, apply_dns-IsValid, apply_entrypoint-IsValid, apply_env-IsValid,
  apply_expose-IsValid, apply_firewall-IsValid, apply_firewall6-IsValid, apply_healthcheck-IsValid,
  apply_label-IsValid, apply_ntp-IsValid, apply_restart-IsValid, apply_service-IsValid,
  apply_volume-IsValid,
}
use cnimbus.Nimbus.Valid.Settings.{
  apply_arch-IsValid, apply_busybox-IsValid, apply_dhcp-IsValid, apply_firewall_on_error-IsValid,
  apply_format-IsValid, apply_hardboot-IsValid, apply_hostname-IsValid, apply_ip-IsValid,
  apply_kernel-IsValid, apply_pieceskey-IsValid, apply_stopgrace-IsValid, apply_tmpsize-IsValid,
  apply_user-IsValid, apply_vga-IsValid, apply_wifi-IsValid, apply_wificountry-IsValid,
  apply_wifipsk-IsValid, apply_workdir-IsValid,
}
use cnimbus.Nimbus.Valid.Tests.{is_empty→eq, is_empty→ne}

unset-or-set : (P : Text → Type 0) (s : Text) → s ≢ [] → IsUnsetOr P s → P s
unfolding IsUnsetOr
unset-or-set P s ne (inl e) = absurd (ne e)
unset-or-set P s ne (inr h) = h

wifi-OneOf : (p : Text) → has_wifi_driver p ≡ true → OneOf p (codes "wifi" ∷ codes "eth+wifi" ∷ [])
unfolding has_wifi_driver OneOf
wifi-OneOf p h = ground (arith, eqt_iff p (codes "wifi"), eqt_iff p (codes "eth+wifi"))

wired-OneOf :
    (p : Text)
    → OneOf p boot_profiles
    → has_wifi_driver p ≡ false
    → OneOf p (codes "none" ∷ codes "eth" ∷ [])
unfolding has_wifi_driver OneOf
wired-OneOf p (inl e) h = inl e
wired-OneOf p (inr (inl e)) h = inr (inl e)
wired-OneOf p (inr (inr (inl e))) h = ground (arith, eqt_iff p (codes "wifi"))
wired-OneOf p (inr (inr (inr (inl e)))) h = ground (arith, eqt_iff p (codes "eth+wifi"))
wired-OneOf p (inr (inr (inr (inr e)))) h = absurd e

module _ (rt : Runtime) where
  apply-IsValid : (d : Directive) → Keeps rt (apply rt d)
  unfolding apply
  apply-IsValid Directive.kernel rest hf v = apply_kernel-IsValid rt rest hf v
  apply-IsValid Directive.busybox rest hf v = apply_busybox-IsValid rt rest hf v
  apply-IsValid Directive.arch rest hf v = apply_arch-IsValid rt rest hf v
  apply-IsValid Directive.vga rest hf v = apply_vga-IsValid rt rest hf v
  apply-IsValid Directive.hardboot rest hf v = apply_hardboot-IsValid rt rest hf v
  apply-IsValid Directive.wifi rest hf v = apply_wifi-IsValid rt rest hf v
  apply-IsValid Directive.wifipsk rest hf v = apply_wifipsk-IsValid rt rest hf v
  apply-IsValid Directive.wificountry rest hf v = apply_wificountry-IsValid rt rest hf v
  apply-IsValid Directive.hostname rest hf v = apply_hostname-IsValid rt rest hf v
  apply-IsValid Directive.dhcp rest hf v = apply_dhcp-IsValid rt rest hf v
  apply-IsValid Directive.ip rest hf v = apply_ip-IsValid rt rest hf v
  apply-IsValid Directive.dns rest hf v = apply_dns-IsValid rt rest hf v
  apply-IsValid Directive.ntp rest hf v = apply_ntp-IsValid rt rest hf v
  apply-IsValid Directive.format rest hf v = apply_format-IsValid rt rest hf v
  apply-IsValid Directive.user rest hf v = apply_user-IsValid rt rest hf v
  apply-IsValid Directive.workdir rest hf v = apply_workdir-IsValid rt rest hf v
  apply-IsValid Directive.label rest hf v = apply_label-IsValid rt rest hf v
  apply-IsValid Directive.expose rest hf v = apply_expose-IsValid rt rest hf v
  apply-IsValid Directive.healthcheck rest hf v = apply_healthcheck-IsValid rt rest hf v
  apply-IsValid Directive.restart rest hf v = apply_restart-IsValid rt rest hf v
  apply-IsValid Directive.volume rest hf v = apply_volume-IsValid rt rest hf v
  apply-IsValid Directive.env rest hf v = apply_env-IsValid rt rest hf v
  apply-IsValid Directive.firewall rest hf v = apply_firewall-IsValid rt rest hf v
  apply-IsValid Directive.firewall6 rest hf v = apply_firewall6-IsValid rt rest hf v
  apply-IsValid Directive.firewall_on_error rest hf v = apply_firewall_on_error-IsValid rt rest hf v
  apply-IsValid Directive.tmpsize rest hf v = apply_tmpsize-IsValid rt rest hf v
  apply-IsValid Directive.stopgrace rest hf v = apply_stopgrace-IsValid rt rest hf v
  apply-IsValid Directive.pieceskey rest hf v = apply_pieceskey-IsValid rt rest hf v
  apply-IsValid Directive.service rest hf v = apply_service-IsValid rt rest hf v
  apply-IsValid Directive.agent rest hf v = apply_agent-IsValid rt rest hf v
  apply-IsValid Directive.entrypoint rest hf v = apply_entrypoint-IsValid rt rest hf v
  apply-IsValid Directive.cmd rest hf v = apply_cmd-IsValid rt rest hf v
  apply-IsValid Directive.copy rest hf v = apply_copy-IsValid rt false rest hf v
  apply-IsValid Directive.add rest hf v = apply_copy-IsValid rt true rest hf v
  apply-IsValid Directive.unknown rest hf v = tt

  run_directive-IsValid :
      (word rest : Text) (s : State)
      → IsValid rt s.hf
      → Holds (λ s'. IsValid rt s'.hf) (run_directive rt word rest s)
  unfolding run_directive
  run_directive-IsValid word rest s v = elim (Result-cases (substitute_args rest s.values)) [
    | inl (x, e) ↦ rw e (
        Holds-bind (IsValid rt) (λ s'. IsValid rt s'.hf) (apply rt (directive_of word) x s.hf) _
          (apply-IsValid (directive_of word) x s.hf v) (λ hf h. h))
    | inr (x, e) ↦ rw e tt
  ]

  declare_arg-IsValid :
      (args : Values) (rest : Text) (s : State)
      → IsValid rt s.hf
      → Holds (λ s'. IsValid rt s'.hf) (declare_arg args rest s)
  unfolding declare_arg
  declare_arg-IsValid args rest s v = ground arith

  parse_line-IsValid :
      (args : Values) (text : Text) (s : State)
      → IsValid rt s.hf
      → Holds (λ s'. IsValid rt s'.hf) (parse_line rt args text s)
  unfolding parse_line
  parse_line-IsValid args text s v =
      let line = trim_space text in
      let rest = trim_space (cut b' ' line).after in
      ground (
        arith,
        declare_arg-IsValid args rest s,
        run_directive-IsValid (map upper (cut b' ' line).before) rest s,
      )

  parse_lines-IsValid :
      (args : Values) (ls : List LogicalLine) (s : State)
      → IsValid rt s.hf
      → Holds (λ s'. IsValid rt s'.hf) (parse_lines rt args ls s)
  unfolding parse_lines
  parse_lines-IsValid args [] s v = v
  parse_lines-IsValid args (l ∷ ls) s v =
      Holds-bind (λ s'. IsValid rt s'.hf) (λ s'. IsValid rt s'.hf) _ (parse_lines rt args ls)
        (Holds-map_err (λ s'. IsValid rt s'.hf) (at_line l.line_no) (parse_line rt args l.text s)
          (parse_line-IsValid args l.text s v))
        (λ s' h. parse_lines-IsValid args ls s' h)

  initial-IsValid : (path : Text) → IsValid rt (initial path)
  unfolding IsSsid IsUnsetOr IsStaticIp OneOf Avoids IsAgent IsGiven IsHealthcheck utf8_len
  initial-IsValid path = ground arith

  default_ntp-IsValid : (hf : Nimbusfile) → IsValid rt hf → IsValid rt (default_ntp hf)
  unfolding IsGiven
  default_ntp-IsValid hf v = ground arith

  cross_refs-WifiAgrees :
      (hf : Nimbusfile) → IsValid rt hf → validate_wifi_cross_refs hf ≡ ok tt → WifiAgrees hf
  unfolding validate_wifi_cross_refs WifiAgrees
  cross_refs-WifiAgrees hf v e = elim (Bool-cases (has_wifi_driver hf.boot_profile)) [
    | inl w ↦
        let full : lacks_wifi hf ≡ false = ground arith in
        inl (
          wifi-OneOf hf.boot_profile w,
          is_empty→ne hf.wifi_ssid (ground arith),
          unset-or-set IsPsk hf.wifi_psk (is_empty→ne hf.wifi_psk (ground arith)) v.wifi_psk,
          unset-or-set IsCountry hf.wifi_country (is_empty→ne hf.wifi_country (ground arith))
              v.wifi_country,
        )
    | inr w ↦
        let none_set : any_wifi hf ≡ false = ground arith in
        inr (
          wired-OneOf hf.boot_profile v.boot_profile w,
          is_empty→eq hf.wifi_ssid (ground arith),
          is_empty→eq hf.wifi_psk (ground arith),
          is_empty→eq hf.wifi_country (ground arith),
        )
  ]

  finish-IsValid :
      (hf : Nimbusfile) → IsValid rt hf → Holds (λ hf'. IsValid rt hf' × WifiAgrees hf') (finish hf)
  unfolding finish
  finish-IsValid hf v = elim (Result-cases (validate_wifi_cross_refs (default_ntp hf))) [
    | inl (x, e) ↦ rw e (
      default_ntp-IsValid hf v,
      cross_refs-WifiAgrees (default_ntp hf) (default_ntp-IsValid hf v) e,
    )
    | inr (x, e) ↦ rw e tt
  ]

  pub parse-IsValid :
      (path : Text) (contents : Option Text) (args : Values) {hf : Nimbusfile}
      → parse rt path contents args ≡ ok hf
      → IsValid rt hf × WifiAgrees hf
  unfolding parse
  parse-IsValid path none args e = cc
  parse-IsValid path (some src) args e =
      Holds-ok (λ hf'. IsValid rt hf' × WifiAgrees hf')
        (Holds-bind (λ s'. IsValid rt s'.hf) (λ hf'. IsValid rt hf' × WifiAgrees hf') _ _
          (parse_lines-IsValid args (join_continuations src) _ (initial-IsValid path))
          (λ s' h. finish-IsValid s'.hf h))
        e
