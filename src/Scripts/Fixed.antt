-- ===== src/Scripts/Fixed.antt =====
-- The fixed scripts of internal/rootfs/build.go and internal/rootfs/console.go.
use cnimbus.Common.{List, [], ◌∷◌}
use cnimbus.Common.Text.{Text, codes}
use cnimbus.Scripts.Shell.{unlines}

abbrev say_lines : List Text
say_lines =
    codes "#!/bin/sh"
    ∷ codes "# Print \"$*\" on every console the kernel registered, not just the one"
    ∷ codes "# /dev/console aliases (the last console= on the cmdline). See"
    ∷ codes "# internal/rootfs/console.go for the full rationale."
    ∷ codes "sent="
    ∷ codes "for c in $(cat /sys/class/tty/console/active 2>/dev/null); do"
    ∷ codes "\t[ -c \"/dev/$c\" ] || continue"
    ∷ codes "\techo \"$*\" > \"/dev/$c\" 2>/dev/null && sent=1"
    ∷ codes "done"
    ∷ codes "# Fallback: no sysfs (or no console class) means no list to fan out to,"
    ∷ codes "# so behave exactly like the plain echo this replaced."
    ∷ codes "[ -n \"$sent\" ] || echo \"$*\""
    ∷ []

abbrev dhcp_script_lines : List Text
dhcp_script_lines =
    codes "#!/bin/sh"
    ∷ codes "[ \"$1\" = \"bound\" ] || [ \"$1\" = \"renew\" ] || exit 0"
    ∷ codes "ifconfig \"$interface\" \"$ip\" netmask \"$subnet\""
    ∷ codes "[ -n \"$mtu\" ] && ifconfig \"$interface\" mtu \"$mtu\""
    ∷ codes "if [ -n \"$router\" ]; then"
    ∷ codes "  while route del default gw 0.0.0.0 dev \"$interface\" 2>/dev/null; do :; done"
    ∷ codes "  for gw in $router; do route add default gw \"$gw\" dev \"$interface\"; done"
    ∷ codes "fi"
    ∷ codes "if [ -n \"$staticroutes\" ]; then"
    ∷ codes "  set -- $staticroutes"
    ∷ codes "  while [ $# -ge 2 ]; do"
    ∷ codes "    route add -net \"$1\" gw \"$2\" dev \"$interface\""
    ∷ codes "    shift 2"
    ∷ codes "  done"
    ∷ codes "fi"
    ∷ codes "if [ -n \"$dns\" ]; then"
    ∷ codes "  : > /etc/resolv.conf"
    ∷ codes "  for d in $dns; do echo \"nameserver $d\" >> /etc/resolv.conf; done"
    ∷ codes "fi"
    ∷ []

abbrev secondary_script_lines : List Text
secondary_script_lines =
    codes "#!/bin/sh"
    ∷ codes "[ \"$1\" = \"bound\" ] || [ \"$1\" = \"renew\" ] || exit 0"
    ∷ codes "ifconfig \"$interface\" \"$ip\" netmask \"$subnet\""
    ∷ []

unfoldable pub build_console_say_script : Text
unfolding unlines
build_console_say_script = unlines say_lines

unfoldable pub udhcpc_script : Text
unfolding unlines
udhcpc_script = unlines dhcp_script_lines

unfoldable pub udhcpc_script_secondary : Text
unfolding unlines
udhcpc_script_secondary = unlines secondary_script_lines

abbrev pub acpi_power_script : Text
acpi_power_script = codes "#!/bin/sh\npoweroff\n"
