-- ===== src/Scripts/Boot/Storage.antt =====
-- The parts of `buildRCScript` of internal/rootfs/build.go for volumes, the log and the firewall.
use cnimbus.Common.{List, [], if◌then◌else◌, ◌++◌, ◌==◌, ◌∷◌}
use cnimbus.Common.Text.{Text, codes, eqt, trim_right}
use cnimbus.Nimbus.Types.{Volume}
use cnimbus.Scripts.Boot.Network.{acpi_power_handler_path, console_say_cmd}
use cnimbus.Scripts.Shell.{concat, sh_quote}

abbrev fs_type_of : Volume → Text
fs_type_of v = if eqt v.fs_type [] then codes "vfat" else v.fs_type

abbrev mounted_text : Volume → Text
mounted_text v = concat (
    codes "/bin/sh /etc/cnimbus-say \"cnimbus: volume "
    ∷ v.device
    ∷ codes " mounted at "
    ∷ v.mountpoint
    ∷ codes " ("
    ∷ fs_type_of v
    ∷ codes ")\""
    ∷ [])

abbrev required_lines : Volume → List Text
required_lines v =
    concat (codes "if ! mountpoint -q " ∷ sh_quote v.mountpoint ∷ codes "; then" ∷ [])
    ∷ concat (
        codes "  /bin/sh /etc/cnimbus-say \"cnimbus: FATAL: required volume "
        ∷ v.device
        ∷ codes " at "
        ∷ v.mountpoint
        ∷ codes " ("
        ∷ fs_type_of v
        ∷ codes ") did not mount -- is it attached, and pre-formatted as "
        ∷ fs_type_of v
        ∷ codes "?\""
        ∷ [])
    ∷ codes "  /bin/sh /etc/cnimbus-say \"cnimbus: halting boot -- no declared service will start\""
    ∷ codes "  while true; do sleep 3600; done"
    ∷ codes "fi"
    ∷ mounted_text v
    ∷ []

abbrev optional_lines : Volume → List Text
optional_lines v =
    concat (
      codes "mountpoint -q "
      ∷ sh_quote v.mountpoint
      ∷ codes " && "
      ∷ mounted_text v
      ∷ codes " || /bin/sh /etc/cnimbus-say \"cnimbus: could not mount "
      ∷ v.device
      ∷ codes " at "
      ∷ v.mountpoint
      ∷ codes " -- is it attached, and pre-formatted as "
      ∷ fs_type_of v
      ∷ codes "?\""
      ∷ [])
    ∷ []

unfoldable pub volume_lines : Volume → List Text
unfolding concat sh_quote eqt
volume_lines v =
    concat (codes "mkdir -p " ∷ sh_quote v.mountpoint ∷ [])
    ∷ concat (
        codes "mount -t "
        ∷ fs_type_of v
        ∷ codes " -o nosuid,nodev "
        ∷ sh_quote v.device
        ∷ codes " "
        ∷ sh_quote v.mountpoint
        ∷ codes " 2>/dev/null"
        ∷ [])
    ∷ (if v.required then required_lines v else optional_lines v)

unfoldable pub volumes_lines : List Volume → List Text
unfolding volume_lines
volumes_lines [] = []
volumes_lines (v ∷ vs) = volume_lines v ++ volumes_lines vs

-- The log goes to the first volume, when it is mounted.
unfoldable pub log_lines : List Volume → List Text
unfolding concat sh_quote trim_right
log_lines [] = []
log_lines (v ∷ vs) =
    concat (
      codes "mountpoint -q "
      ∷ sh_quote v.mountpoint
      ∷ codes " && LOGFILE="
      ∷ sh_quote (trim_right (λ c. c == b'/') v.mountpoint)
      ∷ codes "/cnimbus.log"
      ∷ [])
    ∷ []

unfoldable pub daemon_lines : List Text
unfolding concat
daemon_lines =
    codes "syslogd -O \"$LOGFILE\" -s 1024 -b 5"
    ∷ codes "klogd"
    ∷ concat (
        codes "mount --bind /sbin/powerbtn.sh /"
        ∷ acpi_power_handler_path
        ∷ codes " 2>/dev/null || "
        ∷ console_say_cmd
        ∷ codes " \"cnimbus: could not wire up ACPI power button handler\""
        ∷ [])
    ∷ codes "acpid -d &"
    ∷ []

unfoldable pub firewall_lines : List Text
firewall_lines =
    codes "if command -v iptables >/dev/null 2>&1; then"
    ∷ codes "  IPTABLES_CMD=iptables"
    ∷ codes "elif [ -x /usr/sbin/cnimbus-iptables ]; then"
    ∷ codes "  IPTABLES_CMD=\"/usr/sbin/cnimbus-iptables iptables\""
    ∷ codes "fi"
    ∷ codes "if [ -n \"$IPTABLES_CMD\" ]; then"
    ∷ codes "  export IPTABLES_CMD"
    ∷ codes
        "  sh /etc/init.d/firewall.sh || /bin/sh /etc/cnimbus-say \"cnimbus: FIREWALL script exited non-zero -- see the failure logged above; the ruleset was flushed to accept-all, not left half-applied\""
    ∷ codes "else"
    ∷ codes
        "  /bin/sh /etc/cnimbus-say \"cnimbus: FIREWALL rules configured but no iptables binary available -- COPY one in as a fallback\""
    ∷ codes "fi"
    ∷ []

unfoldable pub firewall6_lines : List Text
firewall6_lines =
    codes "if command -v ip6tables >/dev/null 2>&1; then"
    ∷ codes "  IPTABLES_CMD=ip6tables"
    ∷ codes "elif [ -x /usr/sbin/cnimbus-iptables ]; then"
    ∷ codes "  IPTABLES_CMD=\"/usr/sbin/cnimbus-iptables ip6tables\""
    ∷ codes "fi"
    ∷ codes "if [ -n \"$IPTABLES_CMD\" ]; then"
    ∷ codes "  export IPTABLES_CMD"
    ∷ codes
        "  sh /etc/init.d/firewall6.sh || /bin/sh /etc/cnimbus-say \"cnimbus: FIREWALL6 script exited non-zero -- see the failure logged above; the ruleset was flushed to accept-all, not left half-applied\""
    ∷ codes "else"
    ∷ codes
        "  /bin/sh /etc/cnimbus-say \"cnimbus: FIREWALL6 rules configured but no ip6tables binary available -- COPY one in as a fallback\""
    ∷ codes "fi"
    ∷ []
