-- ===== src/Scripts/Boot/Script.antt =====
-- `buildRCScript` of internal/rootfs/build.go: the script that the guest's init runs at boot.
use mathlib.Core.List.{map}
use cnimbus.Common.{Bool, List, [], if◌then◌else◌, ◌&&◌, ◌++◌, ◌||◌, ◌∷◌}
use cnimbus.Common.Text.{Text, codes, eqt}
use cnimbus.Nimbus.Checks.{has_wifi_driver}
use cnimbus.Scripts.Boot.Network.{
  banner_lines, dns_lines, has_wire, is_nonempty, mount_lines, ntp_can_resolve, ntp_commands,
  secondary_lines, uptime_checkpoint, wire_lines,
}
use cnimbus.Scripts.Boot.Storage.{
  daemon_lines, firewall6_lines, firewall_lines, log_lines, volumes_lines,
}
use cnimbus.Scripts.Boot.Wifi.{wifi_bringup_lines}
use cnimbus.Scripts.Shell.{concat, unlines}
use cnimbus.Scripts.Spec.{PiecesSpec}

-- `lines` where `b` holds.
abbrev pub unless_not : Bool → List Text → List Text
unless_not b ls = if b then ls else []

abbrev pub is_networked : PiecesSpec → Bool
is_networked spec = has_wire spec || has_wifi_driver spec.boot_profile

-- The whole script, section by section.
unfoldable pub rc_sections : (Text → Bool) → PiecesSpec → List (List Text)
unfolding has_wifi_driver ntp_can_resolve mount_lines wire_lines wifi_bringup_lines secondary_lines
    banner_lines dns_lines ntp_commands volumes_lines log_lines daemon_lines firewall_lines
    firewall6_lines uptime_checkpoint eqt
rc_sections is_ip spec =
    mount_lines spec
    ∷ wire_lines spec
    ∷ unless_not (has_wifi_driver spec.boot_profile)
        (wifi_bringup_lines spec ++ uptime_checkpoint (codes "wifi bringup done") ∷ [])
    ∷ unless_not (is_networked spec) secondary_lines
    ∷ unless_not spec.vga banner_lines
    ∷ dns_lines spec.dns
    ∷ unless_not (is_networked spec && is_nonempty spec.ntp && ntp_can_resolve is_ip spec)
        (ntp_commands spec.ntp)
    ∷ volumes_lines spec.volumes
    ∷ (codes "LOGFILE=/dev/console" ∷ log_lines spec.volumes)
    ∷ daemon_lines
    ∷ unless_not (is_nonempty spec.firewall) firewall_lines
    ∷ unless_not (is_nonempty spec.firewall6) firewall6_lines
    ∷ (uptime_checkpoint (codes "rcS finished, services starting") ∷ [])
    ∷ []

unfoldable pub build_rc_script : (Text → Bool) → PiecesSpec → Text
unfolding concat unlines rc_sections
build_rc_script is_ip spec = concat (map unlines (rc_sections is_ip spec))
