-- ===== src/Nimbus/Parse.antt =====
-- `apply`, `validateWiFiCrossRefs` and `Parse`.
pub mod Failures
use mathlib.Core.List.{map}
use cnimbus.Common.{
  ℕ, Bool, true, false, ◌||◌, not, Option, none, some, List, [], ◌∷◌, ◌==◌, if◌then◌else◌, Result,
  ok, err, ◌>>=◌, map_err,
}
use cnimbus.Common.Text.{Text, codes, cut, trim_space, upper, eqt}
use cnimbus.Nimbus.Types.{
  Nimbusfile, Runtime, Reason, arg_needs_name, arg_without_value, wifi_without_profile,
  wifi_incomplete, unknown_directive,
}
use cnimbus.Nimbus.Lines.{LogicalLine, is_empty, join_continuations, dir_of}
use cnimbus.Nimbus.Args.{Values, lookup, substitute_args}
use cnimbus.Nimbus.Checks.{has_wifi_driver}
use cnimbus.Nimbus.Directive.{Directive, directive_of}
use cnimbus.Nimbus.Settings.{
  apply_kernel, apply_busybox, apply_arch, apply_vga, apply_hardboot, apply_wifi, apply_wifipsk,
  apply_wificountry, apply_hostname, apply_dhcp, apply_ip, apply_format, apply_user, apply_workdir,
  apply_firewall_on_error, apply_tmpsize, apply_stopgrace, apply_pieceskey,
}
use cnimbus.Nimbus.Lists.{
  apply_dns, apply_ntp, apply_label, apply_env, apply_expose, apply_healthcheck, apply_restart,
  apply_volume, apply_firewall, apply_firewall6, apply_service, apply_entrypoint, apply_cmd,
}
use cnimbus.Nimbus.Agent.{apply_agent}
use cnimbus.Nimbus.Copy.{apply_copy}

-- `apply`: the switch on the directive.
unfoldable pub apply : Runtime → Directive → Text → Nimbusfile → Result Reason Nimbusfile
apply rt Directive.kernel = apply_kernel
apply rt Directive.busybox = apply_busybox
apply rt Directive.arch = apply_arch
apply rt Directive.vga = apply_vga
apply rt Directive.hardboot = apply_hardboot
apply rt Directive.wifi = apply_wifi
apply rt Directive.wifipsk = apply_wifipsk
apply rt Directive.wificountry = apply_wificountry
apply rt Directive.hostname = apply_hostname
apply rt Directive.dhcp = apply_dhcp
apply rt Directive.ip = apply_ip rt
apply rt Directive.dns = apply_dns rt
apply rt Directive.ntp = apply_ntp
apply rt Directive.format = apply_format
apply rt Directive.user = apply_user
apply rt Directive.workdir = apply_workdir
apply rt Directive.label = apply_label
apply rt Directive.expose = apply_expose
apply rt Directive.healthcheck = apply_healthcheck rt
apply rt Directive.restart = apply_restart
apply rt Directive.volume = apply_volume
apply rt Directive.env = apply_env
apply rt Directive.firewall = apply_firewall
apply rt Directive.firewall6 = apply_firewall6
apply rt Directive.firewall_on_error = apply_firewall_on_error
apply rt Directive.tmpsize = apply_tmpsize
apply rt Directive.stopgrace = apply_stopgrace
apply rt Directive.pieceskey = apply_pieceskey
apply rt Directive.service = apply_service rt
apply rt Directive.agent = apply_agent
apply rt Directive.copy = apply_copy false
apply rt Directive.add = apply_copy true
apply rt Directive.entrypoint = apply_entrypoint rt
apply rt Directive.cmd = apply_cmd rt
apply rt Directive.unknown = λ rest hf. err unknown_directive

-- `hf.WiFiSSID != "" || hf.WiFiPSK != "" || hf.WiFiCountry != ""`
abbrev pub any_wifi : Nimbusfile → Bool
any_wifi hf =
    not (is_empty hf.wifi_ssid) || not (is_empty hf.wifi_psk) || not (is_empty hf.wifi_country)

-- Whether the list `missing` has an entry.
abbrev pub lacks_wifi : Nimbusfile → Bool
lacks_wifi hf = is_empty hf.wifi_ssid || is_empty hf.wifi_psk || is_empty hf.wifi_country

unfoldable pub validate_wifi_cross_refs : Nimbusfile → Result Reason (Unit {0})
unfolding has_wifi_driver
validate_wifi_cross_refs hf =
    if not (has_wifi_driver hf.boot_profile)
    then if any_wifi hf then err wifi_without_profile else ok tt
    else if lacks_wifi hf
    then err wifi_incomplete
    else ok tt

-- An error of `Parse`: the file was not read, a line was refused, or the whole was.
pub data Failure : Type 0 where
  unreadable : Failure
  at_line : ℕ → Reason → Failure
  at_end : Reason → Failure

-- The variables of the loop.
pub record State : Type 0 where
  pub hf : Nimbusfile
  pub values : Values

-- An ARG line: the value that was passed, or the line's own default.
abbrev arg_value : Option Text → Bool → Text → Text → State → Result Reason State
arg_value (some v) has_default def name s = ok (record s { values = (name, v) ∷ s.values })
arg_value none has_default def name s =
    if has_default then ok (record s { values = (name, def) ∷ s.values }) else err arg_without_value

unfoldable pub declare_arg : Values → Text → State → Result Reason State
unfolding cut trim_space lookup
declare_arg build_args rest s =
    let c = cut b'=' rest in
    let name = trim_space c.before in
    if is_empty name
    then err arg_needs_name
    else arg_value (lookup name build_args) c.found c.after name s

-- Any other line.
unfoldable pub run_directive : Runtime → Text → Text → State → Result Reason State
unfolding substitute_args directive_of apply
run_directive rt word rest s = do
  substituted ← substitute_args rest s.values
  hf ← apply rt (directive_of word) substituted s.hf
  ok (record s { hf = hf })

abbrev is_comment : Text → Bool
is_comment [] = true
is_comment (c ∷ l) = c == b'#'

-- The loop's body at one logical line.
unfoldable pub parse_line : Runtime → Values → Text → State → Result Reason State
unfolding cut trim_space upper eqt declare_arg run_directive
parse_line rt build_args text s =
    let line = trim_space text in
    let c = cut b' ' line in
    let word = map upper c.before in
    let rest = trim_space c.after in
    if is_comment line
    then ok s
    else if eqt word (codes "ARG")
    then declare_arg build_args rest s
    else run_directive rt word rest s

unfoldable pub parse_lines : Runtime → Values → List LogicalLine → State → Result Failure State
unfolding parse_line
parse_lines rt build_args [] s = ok s
parse_lines rt build_args (l ∷ ls) s = do
  s' ← map_err (at_line l.line_no) (parse_line rt build_args l.text s)
  parse_lines rt build_args ls s'

abbrev pub initial : Text → Nimbusfile
initial path = record {
  kernel_version = codes "latest-stable";
  busybox_version = codes "latest";
  arch = codes "amd64";
  vga = false;
  boot_profile = codes "none";
  wifi_ssid = [];
  wifi_psk = [];
  wifi_country = [];
  hostname = codes "cnimbus";
  dhcp = true;
  static_ip = none;
  dns = [];
  ntp = [];
  format = codes "iso";
  user = [];
  volumes = [];
  env = [];
  firewall = [];
  firewall6 = [];
  firewall_on_error = [];
  tmpfs_size = [];
  stop_grace = 0;
  pieces_key = [];
  copies = [];
  entrypoint = [];
  cmd = [];
  services = [];
  agent = none;
  workdir = [];
  labels = [];
  exposed = [];
  healthcheck = none;
  entrypoint_restart = codes "always";
  base_dir = dir_of path;
  ntp_touched = false;
}

abbrev pub default_ntp : Nimbusfile → Nimbusfile
default_ntp hf = if not hf.ntp_touched then record hf { ntp = codes "pool.ntp.org" ∷ [] } else hf

-- What `Parse` does behind the loop.
unfoldable pub finish : Nimbusfile → Result Failure Nimbusfile
unfolding validate_wifi_cross_refs
finish hf = do _ ← map_err at_end (validate_wifi_cross_refs (default_ntp hf)); ok (default_ntp hf)

-- `Parse`; `contents` is what reading the file at `path` gave.
unfoldable pub parse : Runtime → Text → Option Text → Values → Result Failure Nimbusfile
unfolding parse_lines join_continuations finish dir_of
parse rt path none build_args = err unreadable
parse rt path (some src) build_args = do
  s ← parse_lines rt build_args (join_continuations src) (record { hf = initial path; values = [] })
  finish s.hf
