-- ===== src/Examples/Manifest.antt =====
-- Runs of the parser of internal/nimbusfile/nimbusfile.go.
use cnimbus.Build.Composed.{run_script-parse}
use cnimbus.Build.Copies.{clean, copy_dest, safe_image_path}
use cnimbus.Build.Spec.{BuildInputs, spec_of}
use cnimbus.Common.{
  All, Bool, List, [], err, false, if◌then◌else◌, length, none, ok, refl, some, true, ◌++◌, ◌∷◌,
  ◌≡◌, ◌≢◌, ◌≤◌,
}
use cnimbus.Common.Text.{Text, codes, contains, eqt, fields, has_prefix, trim_prefix}
use cnimbus.Nimbus.Args.{Values, substitute_args}
use cnimbus.Nimbus.Args.Template.{Piece, expansion, lit, ref, render, substitute_args-expansion}
use cnimbus.Nimbus.Directive.{directive_of}
use cnimbus.Nimbus.Forms.{parse_healthcheck_flags}
use cnimbus.Nimbus.Forms.Flags.{parse_healthcheck_flags-ends}
use cnimbus.Nimbus.Lines.{join_continuations, physical_lines}
use cnimbus.Nimbus.Lines.Numbers.{Numbered, join_continuations-Numbered}
use cnimbus.Nimbus.Lists.{apply_expose, apply_firewall, apply_restart, apply_service}
use cnimbus.Nimbus.Lists.Restart.{RestartLine, apply_restart-RestartLine}
use cnimbus.Nimbus.Parse.{apply, at_line, initial, parse, run_directive}
use cnimbus.Nimbus.Parse.Failures.{parse-error_line}
use cnimbus.Nimbus.Settings.{
  apply_arch, apply_hardboot, apply_kernel, apply_wifi, apply_wificountry, apply_wifipsk,
}
use cnimbus.Nimbus.Types.{Nimbusfile, Runtime, Service, out_of_fuel, rule_metachar}
use cnimbus.Rootfs.Path.{dir_elements}
use cnimbus.Scripts.Firewall.{auto_rules, build_firewall_script}
use cnimbus.Scripts.Reader.{act, is_plain, read_command, scan}
use cnimbus.Scripts.Rules.{IsRead, apply_rules, handler_for, run_script, words_of}
use cnimbus.Stage.Shadow.{trim_leading_slash}

-- Addresses are taken to be what holds a dot; no text is a JSON array here.
abbrev runtime : Runtime
runtime = record { is_ip = λ s. contains s b'.'; json_strings = λ s. none }

abbrev path : Text
path = codes "conf/Nimbusfile"

abbrev wifi_source : Text
wifi_source =
    codes
      "# demo\nARG PSK=unused\narch arm64\nHARDBOOT wifi\nWIFI home\nWIFIPSK ${PSK}$$\nWIFICOUNTRY BR\nFIREWALL -A INPUT -p tcp \\\n --dport 80\nEXPOSE 8080/udp\nSERVICE web /bin/web :80\nRESTART web no\n"

abbrev build_args : Values
build_args = (codes "PSK", codes "correcthorse") ∷ []

abbrev wifi_manifest : Nimbusfile
wifi_manifest = record (initial path) {
  arch = codes "arm64";
  boot_profile = codes "wifi";
  wifi_ssid = codes "home";
  wifi_psk = codes "correcthorse$";
  wifi_country = codes "BR";
  firewall = codes "-A INPUT -p tcp   --dport 80" ∷ [];
  exposed = record { port = 8080; proto = codes "udp" } ∷ [];
  services =
      record {
        name = codes "web";
        argv = codes "/bin/web" ∷ codes ":80" ∷ [];
        restart = codes "no";
      }
      ∷ [];
  ntp = codes "pool.ntp.org" ∷ [];
}

parse_wifi : parse runtime path (some wifi_source) build_args ≡ ok wifi_manifest
unfolding parse has_prefix substitute_args directive_of apply run_directive contains apply_arch
    apply_hardboot apply_wifi apply_wifipsk apply_wificountry apply_firewall apply_expose
    apply_service apply_restart
parse_wifi = refl

-- A build without firmware, and a tool that refuses port 80.
abbrev plain_inputs : BuildInputs
plain_inputs = record {
  busybox_input = codes "busybox";
  applets_input = [];
  iptables_input = codes "iptables";
  supplicant_input = [];
  wifi_input = [];
  ethernet_input = [];
  files_input = [];
  tmp_input = [];
  arm_agent = [];
  amd_agent = [];
}

abbrev refuses_eighty : List Text → Bool
refuses_eighty [] = true
refuses_eighty (w ∷ ws) = let on = refuses_eighty ws in if eqt w (codes "80") then false else on

wifi_manifest-IsRead : All IsRead wifi_manifest.firewall
unfolding IsRead words_of read_command scan act is_plain contains
wifi_manifest-IsRead = (refl, tt)

run_script-parse_example :
    (run_script refuses_eighty (
        build_firewall_script
          (spec_of plain_inputs wifi_manifest).firewall
          (spec_of plain_inputs wifi_manifest).firewall_on_error
          false)
      ≡ apply_rules refuses_eighty
          (handler_for wifi_manifest.firewall_on_error)
          []
          (auto_rules false ++ wifi_manifest.firewall))
    × (run_script refuses_eighty (
          build_firewall_script
            (spec_of plain_inputs wifi_manifest).firewall6
            (spec_of plain_inputs wifi_manifest).firewall_on_error
            true)
        ≡ apply_rules refuses_eighty
            (handler_for wifi_manifest.firewall_on_error)
            []
            (auto_rules true ++ wifi_manifest.firewall6))
run_script-parse_example =
    run_script-parse runtime path (some wifi_source) build_args plain_inputs refuses_eighty
      parse_wifi wifi_manifest-IsRead tt

-- An archive of ADD whose destination is the root has no entry that is accepted.
root_refused : safe_image_path (copy_dest (codes "/")).0 (codes "bin/tool") ≡ none
unfolding safe_image_path copy_dest clean dir_elements eqt has_prefix trim_leading_slash trim_prefix
root_refused = refl

srv_accepted :
    safe_image_path (copy_dest (codes "/srv/")).0 (codes "./a/../b") ≡ some (codes "srv/b")
unfolding safe_image_path copy_dest clean dir_elements eqt has_prefix trim_leading_slash trim_prefix
srv_accepted = refl

abbrev bad_source : Text
bad_source = codes "KERNEL 6.9\\\n.4\nFIREWALL -A INPUT; reboot\n"

parse_bad : parse runtime path (some bad_source) [] ≡ err (at_line 3 rule_metachar)
unfolding parse has_prefix substitute_args directive_of apply run_directive contains apply_kernel
    apply_firewall
parse_bad = refl

parse-error_line_example : (1 ≤ 3) × (3 ≤ length (physical_lines bad_source))
parse-error_line_example = parse-error_line runtime [] path bad_source parse_bad

abbrev template : List Piece
template = lit b'a' ∷ lit b'$' ∷ ref (codes "PSK") ∷ []

substitute_args-expansion_example :
    substitute_args (render template) build_args ≡ expansion build_args template
substitute_args-expansion_example =
    substitute_args-expansion build_args template (unfold contains in (tt, (tt, (refl, tt))))

join_continuations-Numbered_example :
    Numbered (length (physical_lines bad_source)) 0 (join_continuations bad_source)
join_continuations-Numbered_example = join_continuations-Numbered bad_source

parse_healthcheck_flags-ends_example :
    parse_healthcheck_flags (codes "--retries=5 --interval=1 curl") ≢ err out_of_fuel
parse_healthcheck_flags-ends_example =
    parse_healthcheck_flags-ends (codes "--retries=5 --interval=1 curl")

abbrev two_services : List Service
two_services =
    record { name = codes "a"; argv = []; restart = [] }
    ∷ record { name = codes "b"; argv = []; restart = [] }
    ∷ []

apply_restart-RestartLine_example :
    RestartLine
      (codes "b" ∷ codes "no" ∷ [])
      (record (initial []) { services = two_services })
      (apply_restart (codes "b no") (record (initial []) { services = two_services }))
unfolding fields
apply_restart-RestartLine_example =
    apply_restart-RestartLine (codes "b no") (record (initial []) { services = two_services })
