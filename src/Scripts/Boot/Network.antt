-- ===== src/Scripts/Boot/Network.antt =====
-- The parts of `buildRCScript` of internal/rootfs/build.go that mount the system's file systems
-- and set up the network.
use cnimbus.Common.{
  Bool, List, Option, [], false, if◌then◌else◌, none, not, some, true, ◌&&◌, ◌++◌, ◌||◌, ◌∷◌,
}
use cnimbus.Common.Text.{Text, codes}
use cnimbus.Nimbus.Types.{StaticIp}
use cnimbus.Scripts.Shell.{concat, sh_quote}
use cnimbus.Scripts.Spec.{PiecesSpec}

abbrev pub console_say_cmd : Text
console_say_cmd = codes "/bin/sh /etc/cnimbus-say"

abbrev pub acpi_power_handler_path : Text
acpi_power_handler_path = codes "etc/acpi/PWRF/00000080"

unfoldable pub uptime_checkpoint : Text → Text
unfolding concat
uptime_checkpoint label = concat (
    codes "/bin/sh /etc/cnimbus-say \"cnimbus: $(cut -d. -f1 /proc/uptime)s: "
    ∷ label
    ∷ codes "\""
    ∷ [])

abbrev pub is_set {ℓ} : {A : Type ℓ} → Option A → Bool
is_set none = false
is_set (some a) = true

abbrev pub is_nonempty : List Text → Bool
is_nonempty [] = false
is_nonempty (t ∷ ts) = true

-- `is_ip` is what net.ParseIP accepts.
unfoldable pub all_addresses : (Text → Bool) → List Text → Bool
all_addresses is_ip [] = true
all_addresses is_ip (s ∷ ss) = is_ip s && all_addresses is_ip ss

unfoldable pub ntp_can_resolve : (Text → Bool) → PiecesSpec → Bool
unfolding all_addresses
ntp_can_resolve is_ip spec =
    if is_nonempty spec.dns
    then true
    else if not (is_set spec.static_ip) && spec.dhcp
    then true
    else all_addresses is_ip spec.ntp

unfoldable pub mount_lines : PiecesSpec → List Text
unfolding concat sh_quote uptime_checkpoint
mount_lines spec =
    codes "#!/bin/sh"
    ∷ codes "mount -t devtmpfs devtmpfs /dev"
    ∷ codes "mount -t proc proc /proc"
    ∷ codes
        "mount -o remount,hidepid=2,nosuid,nodev,noexec /proc || /bin/sh /etc/cnimbus-say \"cnimbus: warning: could not apply hidepid=2 to /proc (kernel/config too old?), continuing without it\""
    ∷ codes "mount -t sysfs sysfs /sys"
    ∷ uptime_checkpoint (codes "rcS starting (post switch_root)")
    ∷ codes
        "mount -o remount,nosuid,nodev,noexec /sys || /bin/sh /etc/cnimbus-say \"cnimbus: warning: could not apply hardening options to /sys, continuing without them\""
    ∷ codes "echo -1000 > /proc/1/oom_score_adj 2>/dev/null"
    ∷ codes "mount -t tmpfs -o nosuid,nodev,noexec,mode=1777,size=64m tmpfs /tmp"
    ∷ codes "mount -t tmpfs -o nosuid,nodev,mode=0755,size=8m tmpfs /var/run"
    ∷ codes "mount --bind /var/run /run 2>/dev/null || mount -t tmpfs tmpfs /run 2>/dev/null"
    ∷ codes ": > /var/run/resolv.conf"
    ∷ codes
        "mount --bind /var/run/resolv.conf /etc/resolv.conf 2>/dev/null || /bin/sh /etc/cnimbus-say \"cnimbus: could not make /etc/resolv.conf writable -- DNS resolution may not work\""
    ∷ concat (codes "hostname " ∷ sh_quote spec.hostname ∷ [])
    ∷ codes "ifconfig lo up"
    ∷ []

unfoldable pub interface_lines : List Text
unfolding concat
interface_lines =
    codes
      "[ -e /sys/class/net/eth0 ] || /bin/sh /etc/cnimbus-say \"cnimbus: no eth0 -- unsupported NIC model for this VM/hypervisor\""
    ∷ codes "if [ -e /sys/class/net/eth0 ]; then"
    ∷ codes
        "  ETH0DRV=$(readlink -f /sys/class/net/eth0/device/driver 2>/dev/null); ETH0DRV=${ETH0DRV##*/}"
    ∷ concat (
        codes "  "
        ∷ console_say_cmd
        ∷ codes
            " \"cnimbus: eth0 driver=${ETH0DRV:-unknown} mac=$(cat /sys/class/net/eth0/address 2>/dev/null)\""
        ∷ [])
    ∷ codes "fi"
    ∷ []

unfoldable pub static_lines : Text → StaticIp → List Text
unfolding concat sh_quote
static_lines iface ip =
    concat (
      codes "ifconfig "
      ∷ iface
      ∷ codes " "
      ∷ sh_quote ip.address
      ∷ codes " netmask "
      ∷ sh_quote ip.netmask
      ∷ codes " up"
      ∷ [])
    ∷ concat (codes "route add default gw " ∷ sh_quote ip.gateway ∷ codes " dev " ∷ iface ∷ [])
    ∷ []

unfoldable pub dhcp_lines : List Text
unfolding concat
dhcp_lines =
    codes "ifconfig eth0 up"
    ∷ codes
        "for i in 1 2 3; do [ \"$(cat /sys/class/net/eth0/carrier 2>/dev/null)\" = 1 ] && break; sleep 1; done"
    ∷ concat (
        console_say_cmd
        ∷ codes
            " \"cnimbus: eth0 carrier=$(cat /sys/class/net/eth0/carrier 2>/dev/null) operstate=$(cat /sys/class/net/eth0/operstate 2>/dev/null) speed=$(cat /sys/class/net/eth0/speed 2>/dev/null)Mbps\""
        ∷ [])
    ∷ codes "udhcpc -i eth0 -n -t 3 -T 1 -A 2 -s /sbin/udhcpc.script"
    ∷ codes "DHCPRC=$?"
    ∷ concat (
        console_say_cmd
        ∷ codes
            " \"cnimbus: udhcpc exit=$DHCPRC addr=$(ip -o -f inet addr show eth0 2>/dev/null | awk '{print $4}')\""
        ∷ [])
    ∷ []

unfoldable pub ipv6_lines : List Text
unfolding concat
ipv6_lines =
    codes
      "for i in 1 2 3 4 5; do ip -6 addr show dev eth0 2>/dev/null | grep -q 'scope global' && break; sleep 1; done"
    ∷ codes "IPV6ADDRS=$(ip -o -6 addr show dev eth0 2>/dev/null | awk '{print $4}' | tr '\\n' ' ')"
    ∷ concat (console_say_cmd ∷ codes " \"cnimbus: eth0 ipv6 addrs: ${IPV6ADDRS:-(none)}\"" ∷ [])
    ∷ codes "IPV6GW=$(ip -6 route show default 2>/dev/null | head -n1)"
    ∷ concat
        (console_say_cmd ∷ codes " \"cnimbus: eth0 ipv6 default route: ${IPV6GW:-(none)}\"" ∷ [])
    ∷ []

-- Whether eth0 is set up: the static address wins over DHCP.
abbrev pub has_wire : PiecesSpec → Bool
has_wire spec = is_set spec.static_ip || spec.dhcp

abbrev address_lines : Option StaticIp → Bool → List Text
address_lines (some ip) dhcp = static_lines (codes "eth0") ip
address_lines none true = dhcp_lines
address_lines none false = []

unfoldable pub wire_lines : PiecesSpec → List Text
unfolding interface_lines static_lines dhcp_lines ipv6_lines uptime_checkpoint
wire_lines spec =
    if has_wire spec
    then interface_lines
      ++ (address_lines spec.static_ip spec.dhcp
          ++ (ipv6_lines ++ uptime_checkpoint (codes "eth0 network setup done") ∷ []))
    else uptime_checkpoint (codes "eth0 network setup done") ∷ []

unfoldable pub secondary_lines : List Text
secondary_lines =
    codes "for i in 1 2 3; do"
    ∷ codes
        "  [ -e /sys/class/net/eth$i ] && { ifconfig eth$i up; udhcpc -i eth$i -n -s /sbin/udhcpc-secondary.script & }"
    ∷ codes "done"
    ∷ []

unfoldable pub banner_lines : List Text
banner_lines =
    codes "for fam in inet inet6; do"
    ∷ codes "  if [ \"$fam\" = inet6 ]; then"
    ∷ codes
        "    for i in 1 2 3 4 5; do ip -o -f inet6 addr show scope global 2>/dev/null | grep -q . && break; sleep 1; done"
    ∷ codes "  fi"
    ∷ codes
        "  ip -o -f \"$fam\" addr show scope global 2>/dev/null | while read -r _ iface _ addrpfx _; do"
    ∷ codes "    addr=\"${addrpfx%%/*}\""
    ∷ codes "    [ \"$fam\" = inet6 ] && label=IPv6 || label=IPv4"
    ∷ codes "    /bin/sh /etc/cnimbus-say \"cnimbus: $label address: $addr ($iface)\""
    ∷ codes "  done"
    ∷ codes "done"
    ∷ []

unfoldable pub dns_echoes : List Text → List Text
unfolding concat sh_quote
dns_echoes [] = []
dns_echoes (s ∷ ss) =
    concat (codes "echo " ∷ sh_quote (codes "nameserver " ++ s) ∷ codes " >> /etc/resolv.conf" ∷ [])
    ∷ dns_echoes ss

unfoldable pub dns_lines : List Text → List Text
unfolding dns_echoes
dns_lines [] = []
dns_lines (s ∷ ss) = codes ": > /etc/resolv.conf" ∷ dns_echoes (s ∷ ss)

unfoldable pub ntp_args : List Text → Text
unfolding sh_quote
ntp_args [] = []
ntp_args (s ∷ ss) = codes " -p " ++ (sh_quote s ++ ntp_args ss)

unfoldable pub ntp_commands : List Text → List Text
unfolding concat ntp_args
ntp_commands servers =
    concat (codes "timeout 3 ntpd -q -n" ∷ ntp_args servers ∷ codes " >/dev/null 2>&1" ∷ [])
    ∷ concat (codes "(timeout 15 ntpd -q -n" ∷ ntp_args servers ∷ codes " >/dev/null 2>&1 &)" ∷ [])
    ∷ []
