-- ===== src/Scripts/Boot/Wifi.antt =====
-- `buildWifiBringupScript` and `buildWpaSupplicantConf` of internal/rootfs/build.go.
use mathlib.Core.List.{map}
use cnimbus.Common.{
  Bool, List, Option, [], false, if◌then◌else◌, none, some, true, ◌++◌, ◌==◌, ◌||◌, ◌∷◌,
}
use cnimbus.Common.Text.{Text, codes}
use cnimbus.Nimbus.Checks.{is_hex_key}
use cnimbus.Nimbus.Types.{StaticIp}
use cnimbus.Scripts.Boot.Network.{static_lines}
use cnimbus.Scripts.Shell.{concat, sh_quote, unlines}
use cnimbus.Scripts.Spec.{PiecesSpec}

unfoldable pub quote_specials : Text → Text
quote_specials [] = []
quote_specials (c ∷ s) =
    let rest = quote_specials s in if c == 34 || c == 92 then 92 ∷ c ∷ rest else c ∷ rest

unfoldable pub wpa_conf_quote : Text → Text
unfolding quote_specials
wpa_conf_quote s = 34 ∷ (quote_specials s ++ 34 ∷ [])

abbrev country_lines : Text → List Text
country_lines [] = []
country_lines (c ∷ s) = (codes "country=" ++ c ∷ s) ∷ []

unfoldable pub build_wpa_supplicant_conf : Text → Text → Text → Text
unfolding unlines wpa_conf_quote is_hex_key
build_wpa_supplicant_conf ssid psk country = unlines (
    codes "# Generated by cnimbus (F6.5) -- do not edit by hand."
    ∷ codes "# Carries the WIFIPSK secret in plain text (wpa_supplicant has no other"
    ∷ codes "# way to consume a PSK); this file must stay 0600 -- see BuildImages."
    ∷ codes "ap_scan=1"
    ∷ (country_lines country
        ++ (codes "network={"
            ∷ (codes "  ssid=" ++ wpa_conf_quote ssid)
            ∷ (codes "  psk=" ++ (if is_hex_key psk then psk else wpa_conf_quote psk))
            ∷ codes "  key_mgmt=WPA-PSK"
            ∷ codes "}"
            ∷ [])))

abbrev pub wpa_supplicant_log : Text
wpa_supplicant_log = codes "/var/log/wpa_supplicant.log"

unfoldable pub association_lines : PiecesSpec → List Text
unfolding concat sh_quote
association_lines spec =
    codes "if [ -e /sys/class/net/wlan0 ]; then"
    ∷ codes "  ifconfig wlan0 up"
    ∷ concat (
        codes "  /usr/sbin/wpa_supplicant -B -i wlan0 -c /usr/sbin/wpa_supplicant.conf -f "
        ∷ sh_quote wpa_supplicant_log
        ∷ codes " 2>/dev/null"
        ∷ [])
    ∷ codes "  WIFI_N=0"
    ∷ codes "  WIFI_STATE=pending"
    ∷ concat (codes "  while [ \"$WIFI_N\" -lt " ∷ codes "20" ∷ codes " ]; do" ∷ [])
    ∷ concat (
        codes "    grep -q 'CTRL-EVENT-CONNECTED' "
        ∷ sh_quote wpa_supplicant_log
        ∷ codes " 2>/dev/null && { WIFI_STATE=connected; break; }"
        ∷ [])
    ∷ concat (
        codes "    grep -qE 'CTRL-EVENT-SSID-TEMP-DISABLED|WRONG_KEY' "
        ∷ sh_quote wpa_supplicant_log
        ∷ codes " 2>/dev/null && { WIFI_STATE=rejected; break; }"
        ∷ [])
    ∷ codes "    sleep 1"
    ∷ codes "    WIFI_N=$((WIFI_N+1))"
    ∷ codes "  done"
    ∷ codes "  [ \"$WIFI_STATE\" = pending ] && WIFI_STATE=timeout"
    ∷ codes "  case \"$WIFI_STATE\" in"
    ∷ concat (
        codes "    connected) echo "
        ∷ sh_quote (codes "cnimbus: wifi: associated with SSID " ++ spec.wifi_ssid)
        ∷ codes ";;"
        ∷ [])
    ∷ concat (
        codes "    rejected) echo "
        ∷ sh_quote (
            concat (
              codes "cnimbus: wifi: authentication rejected for SSID "
              ∷ spec.wifi_ssid
              ∷ codes " -- check WIFIPSK"
              ∷ []))
        ∷ codes ";;"
        ∷ [])
    ∷ concat (
        codes "    *) echo "
        ∷ sh_quote (
            concat (
              codes "cnimbus: wifi: no association with SSID "
              ∷ spec.wifi_ssid
              ∷ codes
                  " within 20s (no matching AP in range, or firmware missing -- check dmesg for request_firmware failures)"
              ∷ []))
        ∷ codes ";;"
        ∷ [])
    ∷ codes "  esac"
    ∷ codes "  if [ \"$WIFI_STATE\" = connected ]; then"
    ∷ []

abbrev indented : Text → Text
indented l = codes "    " ++ l

abbrev wlan_lines : Option StaticIp → Bool → List Text
wlan_lines (some ip) dhcp = map indented (static_lines (codes "wlan0") ip)
wlan_lines none true = codes "    udhcpc -i wlan0 -n -t 3 -T 1 -A 2 -s /sbin/udhcpc.script" ∷ []
wlan_lines none false = []

unfoldable pub wifi_bringup_lines : PiecesSpec → List Text
unfolding association_lines static_lines sh_quote
wifi_bringup_lines spec =
    association_lines spec
    ++ (wlan_lines spec.static_ip spec.dhcp
        ++ (codes "  fi"
            ∷ codes "else"
            ∷ (codes "  echo "
                ++ sh_quote (
                    codes
                      "cnimbus: no wlan0 -- unsupported WiFi chipset for this HARDBOOT wifi/eth+wifi image (see F6.6's curated chipset list)"))
            ∷ codes "fi"
            ∷ []))
