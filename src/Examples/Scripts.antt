-- ===== src/Examples/Scripts.antt =====
-- The scripts of a small image, and what is read from them.
use mathlib.Core.List.{map}
use cnimbus.Common.{
  Bool, List, [], drop, false, if◌then◌else◌, length, refl, some, true, ◌++◌, ◌∷◌, ◌≡◌,
}
use cnimbus.Common.Number.{all_chars, is_hex}
use cnimbus.Common.Text.{
  Text, codes, contains, contains_any, eqt, is_space, trim_left, trim_right, trim_space, utf8_len,
}
use cnimbus.Nimbus.Checks.{
  is_country, is_hex_key, is_printable, validate_wifi_country, validate_wifi_psk,
  validate_wifi_ssid,
}
use cnimbus.Nimbus.Types.{EnvVar, Healthcheck, Service}
use cnimbus.Scripts.AgentScript.{build_agent_script}
use cnimbus.Scripts.Boot.Supplicant.{conf_lines, lines-build_wpa_supplicant_conf}
use cnimbus.Scripts.Boot.Wifi.{build_wpa_supplicant_conf}
use cnimbus.Scripts.Entries.{
  agent_entries, core_entries, read_inittab, read_inittab-build_inittab, service_entry,
}
use cnimbus.Scripts.Environment.{export_words, read_commands-build_supervisor_script}
use cnimbus.Scripts.Firewall.{auto_rules, build_firewall_script}
use cnimbus.Scripts.Headers.{
  IsSendable, agent_of, agent_of-build_agent_script, agent_words, script_lines, set_headers,
}
use cnimbus.Scripts.Inittab.{build_inittab, supervisor_script_path}
use cnimbus.Scripts.Reader.{act, is_plain, lines, read_command, read_commands, scan}
use cnimbus.Scripts.Rules.{
  IsRead, apply_rules, handler_for, run_script, run_script-build_firewall_script, words_of,
}
use cnimbus.Scripts.Shell.{concat, replace_quotes, sh_join, sh_quote, unlines}
use cnimbus.Scripts.Spec.{GuestAgent}
use cnimbus.Scripts.Supervisor.{build_supervisor_script, supervisor_body, supervisor_head}
use cnimbus.Scripts.Words.{read_command-sh_join}

abbrev quoted_words : List Text
quoted_words = codes "sh" ∷ codes "-c" ∷ codes "echo 'it is $HOME'; reboot" ∷ [] ∷ []

read_command-sh_join_example :
    read_command (sh_join quoted_words ++ 10 ∷ codes "next\n") ≡ some (quoted_words, codes "next\n")
read_command-sh_join_example = read_command-sh_join quoted_words (codes "next\n")

-- The text of Go's own test of shQuote.
sh_quote_its : sh_quote (codes "it's") ≡ codes "'it'\\''s'"
unfolding sh_quote replace_quotes
sh_quote_its = refl

abbrev web : Service
web = record { name = codes "web"; argv = codes "/bin/web" ∷ []; restart = codes "no" }

abbrev poller : GuestAgent
poller = record {
  kind = codes "http";
  url = codes "http://10.0.2.2:8080/kv?a='b'";
  interval = codes "5";
  headers =
      record { name = codes "Authorization"; value = codes "Bearer it's: x" }
      ∷ record { name = codes "X-A"; value = [] }
      ∷ [];
  agent_binary = [];
}

read_inittab-build_inittab_example :
    read_inittab (build_inittab (web ∷ []) (some poller))
    ≡ core_entries ++ (map service_entry (web ∷ []) ++ agent_entries (some poller))
unfolding contains
read_inittab-build_inittab_example =
    read_inittab-build_inittab (web ∷ []) (some poller) (refl, tt) (refl, refl, refl)

web_entry :
    service_entry web
    ≡ some record {
      id = [];
      runlevels = [];
      action = codes "once";
      process = codes "/bin/sh /usr/sbin/cnimbus-svc-web.sh";
    }
unfolding service_entry eqt supervisor_script_path concat
web_entry = refl

abbrev variables : List EnvVar
variables =
    record { key = codes "GREETING"; value = codes "it's $(date)" }
    ∷ record { key = codes "EMPTY"; value = [] }
    ∷ []

abbrev probe : Healthcheck
probe = record { argv = codes "/bin/true" ∷ []; interval = codes "10"; retries = codes "3" }

read_commands-build_supervisor_script_example :
    read_commands 2 (
      drop
        (length (unlines supervisor_head))
        (build_supervisor_script web variables (codes "app") (codes "/srv") (some probe)))
    ≡ some (
      map export_words variables,
      unlines (supervisor_body web (codes "app") (codes "/srv") (some probe)),
    )
unfolding all_chars is_plain contains
read_commands-build_supervisor_script_example =
    read_commands-build_supervisor_script web variables (codes "app") (codes "/srv") (some probe)
      (refl, (refl, tt))

authorization-IsSendable :
    IsSendable record { name = codes "Authorization"; value = codes "Bearer it's: x" }
unfolding contains trim_space trim_left trim_right is_space
authorization-IsSendable = record {
  name_line = refl;
  value_line = refl;
  no_colon = refl;
  name_trimmed = refl;
  value_trimmed = refl;
}

empty-IsSendable : IsSendable record { name = codes "X-A"; value = [] }
unfolding contains trim_space trim_left trim_right is_space
empty-IsSendable = record {
  name_line = refl;
  value_line = refl;
  no_colon = refl;
  name_trimmed = refl;
  value_trimmed = refl;
}

agent_of-build_agent_script_example :
    agent_of (
      read_commands
        (length (script_lines poller poller.headers))
        (drop (length (codes "#!/bin/sh\n")) (build_agent_script poller)))
    ≡ some (set_headers [] poller.headers, agent_words poller)
agent_of-build_agent_script_example =
    agent_of-build_agent_script poller (authorization-IsSendable, (empty-IsSendable, tt))

abbrev ssh_rule : Text
ssh_rule = codes "-A INPUT -p tcp --dport 22 -j ACCEPT"

-- A tool that knows no rule for a port.
abbrev refuses_ports : List Text → Bool
refuses_ports [] = true
refuses_ports (w ∷ ws) = let on = refuses_ports ws in if eqt w (codes "--dport") then false else on

ssh_rule-IsRead : IsRead ssh_rule
unfolding IsRead words_of read_command scan act is_plain contains
ssh_rule-IsRead = refl

run_script-build_firewall_script_example :
    run_script refuses_ports (build_firewall_script (ssh_rule ∷ []) (codes "closed") true)
    ≡ apply_rules refuses_ports (handler_for (codes "closed")) [] (auto_rules true ++ ssh_rule ∷ [])
unfolding contains
run_script-build_firewall_script_example =
    run_script-build_firewall_script refuses_ports (ssh_rule ∷ []) (codes "closed") true (refl, tt)
      (ssh_rule-IsRead, tt)

lines-build_wpa_supplicant_conf_example :
    lines (build_wpa_supplicant_conf (codes "home net") (codes "correct horse") (codes "BR"))
    ≡ conf_lines (codes "home net") (codes "correct horse") (codes "BR")
unfolding validate_wifi_ssid validate_wifi_psk validate_wifi_country is_country utf8_len
    contains_any contains is_hex_key all_chars is_hex is_printable
lines-build_wpa_supplicant_conf_example =
    lines-build_wpa_supplicant_conf (codes "home net") (codes "correct horse") (codes "BR") refl
      refl refl
