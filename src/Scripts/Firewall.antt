-- ===== src/Scripts/Firewall.antt =====
-- `buildFirewallScript` of internal/rootfs/build.go: the rules of one address family.
use cnimbus.Common.{Bool, List, [], if◌then◌else◌, ◌++◌, ◌∷◌}
use cnimbus.Common.Text.{Text, codes, eqt}
use cnimbus.Scripts.Shell.{concat, sh_quote, unlines}

abbrev mode_name : Bool → Text
mode_name closed = if closed then codes "closed" else codes "open"

unfoldable pub effective_firewall_on_error : Text → Text
unfolding eqt
effective_firewall_on_error on_error = mode_name (eqt on_error (codes "closed"))

abbrev icmpv6_rule : Text → Text
icmpv6_rule type_name =
    concat (codes "-A INPUT -p icmpv6 --icmpv6-type " ∷ type_name ∷ codes " -j ACCEPT" ∷ [])

unfoldable pub icmpv6_ndp_auto_rules : List Text
unfolding concat
icmpv6_ndp_auto_rules =
    icmpv6_rule (codes "destination-unreachable")
    ∷ icmpv6_rule (codes "packet-too-big")
    ∷ icmpv6_rule (codes "time-exceeded")
    ∷ icmpv6_rule (codes "parameter-problem")
    ∷ icmpv6_rule (codes "echo-request")
    ∷ icmpv6_rule (codes "echo-reply")
    ∷ icmpv6_rule (codes "router-solicitation")
    ∷ icmpv6_rule (codes "router-advertisement")
    ∷ icmpv6_rule (codes "neighbour-solicitation")
    ∷ icmpv6_rule (codes "neighbour-advertisement")
    ∷ icmpv6_rule (codes "redirect")
    ∷ []

unfoldable pub auto_rules : Bool → List Text
unfolding icmpv6_ndp_auto_rules
auto_rules ipv6 =
    codes "-A INPUT -i lo -j ACCEPT"
    ∷ codes "-A INPUT -m state --state ESTABLISHED,RELATED -j ACCEPT"
    ∷ (if ipv6 then icmpv6_ndp_auto_rules else [])

-- What the trap of the script runs when a rule is refused.
unfoldable pub closed_handler : Text
unfolding concat
closed_handler = concat (
    codes "code=$?; if [ \"$code\" -ne 0 ]; then "
    ∷ codes "/bin/sh /etc/cnimbus-say \"cnimbus: FIREWALL rule failed ($CNIMBUS_FAILED_RULE), "
    ∷ codes "flushing to a closed (reachable-by-nothing) fallback\"; "
    ∷ codes "$IPTABLES_CMD -F; "
    ∷ codes "$IPTABLES_CMD -P INPUT DROP; $IPTABLES_CMD -P FORWARD DROP; "
    ∷ codes "$IPTABLES_CMD -P OUTPUT ACCEPT; "
    ∷ codes "$IPTABLES_CMD -A INPUT -i lo -j ACCEPT; "
    ∷ codes "$IPTABLES_CMD -A INPUT -m state --state ESTABLISHED,RELATED -j ACCEPT; "
    ∷ codes "fi"
    ∷ [])

unfoldable pub open_handler : Text
unfolding concat
open_handler = concat (
    codes "code=$?; if [ \"$code\" -ne 0 ]; then "
    ∷ codes "/bin/sh /etc/cnimbus-say \"cnimbus: FIREWALL rule failed ($CNIMBUS_FAILED_RULE), "
    ∷ codes "flushing to a known-safe (accept-all) fallback\"; "
    ∷ codes "$IPTABLES_CMD -F; "
    ∷ codes "$IPTABLES_CMD -P INPUT ACCEPT; $IPTABLES_CMD -P FORWARD ACCEPT; "
    ∷ codes "$IPTABLES_CMD -P OUTPUT ACCEPT; "
    ∷ codes "fi"
    ∷ [])

abbrev trap_line : Text → Text
trap_line handler = concat (codes "trap '" ∷ handler ∷ codes "' EXIT" ∷ [])

unfoldable pub rule_lines : List Text → List Text
unfolding sh_quote
rule_lines [] = []
rule_lines (r ∷ rs) =
    (codes "CNIMBUS_FAILED_RULE=" ++ sh_quote r) ∷ (codes "$IPTABLES_CMD " ++ r) ∷ rule_lines rs

-- `closed` is the comparison that both the trap and the mode's name make.
unfoldable pub head_lines : Bool → Bool → List Text
unfolding concat sh_quote closed_handler open_handler
head_lines closed ipv6 =
    codes "#!/bin/sh"
    ∷ codes "set -e"
    ∷ trap_line (if closed then closed_handler else open_handler)
    ∷ concat (
        codes "/bin/sh /etc/cnimbus-say \"cnimbus: firewall ("
        ∷ (if ipv6 then codes "IPv6" else codes "IPv4")
        ∷ codes ") fallback-on-error mode: "
        ∷ sh_quote (mode_name closed)
        ∷ codes "\""
        ∷ [])
    ∷ []

unfoldable pub firewall_head : Text → Bool → List Text
unfolding head_lines eqt
firewall_head on_error ipv6 = head_lines (eqt on_error (codes "closed")) ipv6

unfoldable pub build_firewall_script : List Text → Text → Bool → Text
unfolding unlines firewall_head rule_lines auto_rules
build_firewall_script rules on_error ipv6 =
    unlines (firewall_head on_error ipv6 ++ rule_lines (auto_rules ipv6 ++ rules))
