-- ===== src/Nimbus/Settings.antt =====
-- The directives of `apply` that set one value: each takes the text behind the word.
use cnimbus.Common.{
  ℕ, zero, suc, Bool, false, ◌||◌, not, Option, none, some, List, [], ◌∷◌, ◌==◌, if◌then◌else◌,
  Result, ok, err, ◌>>=◌,
}
use cnimbus.Common.Number.{ℤ, pos, negsuc, atoi, parse_bool, hex_bytes}
use cnimbus.Common.Text.{Text, codes, eqt, fields, lower}
use mathlib.Core.List.{map}
use cnimbus.Nimbus.Types.{
  Nimbusfile, Runtime, Reason, missing_value, bad_arch, bad_bool, bad_boot_profile, bad_format,
  bad_firewall_on_error, wifi_already_set, ip_fields, bad_address, bad_stop_grace, bad_pieces_key,
}
use cnimbus.Nimbus.Lines.{is_empty}
use cnimbus.Nimbus.Checks.{
  member, validate_wifi_ssid, validate_wifi_psk, validate_wifi_country, validate_tmpfs_size,
}

abbrev pub Handler : Type 0
Handler = Text → Nimbusfile → Result Reason Nimbusfile

unfoldable pub apply_kernel : Handler
apply_kernel rest hf =
    if is_empty rest then err missing_value else ok (record hf { kernel_version = rest })

unfoldable pub apply_busybox : Handler
apply_busybox rest hf =
    if is_empty rest then err missing_value else ok (record hf { busybox_version = rest })

unfoldable pub apply_arch : Handler
unfolding eqt
apply_arch rest hf =
    if not (eqt rest (codes "amd64") || eqt rest (codes "arm64"))
    then err bad_arch
    else ok (record hf { arch = rest })

abbrev or_bad_bool : Option Bool → (Bool → Nimbusfile) → Result Reason Nimbusfile
or_bad_bool none f = err bad_bool
or_bad_bool (some v) f = ok (f v)

unfoldable pub apply_vga : Handler
unfolding parse_bool
apply_vga rest hf = or_bad_bool (parse_bool rest) (λ v. record hf { vga = v })

abbrev pub boot_profiles : List Text
boot_profiles = codes "none" ∷ codes "eth" ∷ codes "wifi" ∷ codes "eth+wifi" ∷ []

unfoldable pub apply_hardboot : Handler
unfolding eqt
apply_hardboot rest hf =
    if not (member rest boot_profiles)
    then err bad_boot_profile
    else ok (record hf { boot_profile = rest })

unfoldable pub apply_wifi : Handler
unfolding validate_wifi_ssid
apply_wifi rest hf =
    if is_empty rest
    then err missing_value
    else if not (is_empty hf.wifi_ssid)
    then err wifi_already_set
    else do _ ← validate_wifi_ssid rest; ok (record hf { wifi_ssid = rest })

unfoldable pub apply_wifipsk : Handler
unfolding validate_wifi_psk
apply_wifipsk rest hf =
    if is_empty rest
    then err missing_value
    else do _ ← validate_wifi_psk rest; ok (record hf { wifi_psk = rest })

unfoldable pub apply_wificountry : Handler
unfolding validate_wifi_country
apply_wificountry rest hf = do
  _ ← validate_wifi_country rest
  ok (record hf { wifi_country = rest })

unfoldable pub apply_hostname : Handler
apply_hostname rest hf =
    if is_empty rest then err missing_value else ok (record hf { hostname = rest })

unfoldable pub apply_dhcp : Handler
unfolding parse_bool
apply_dhcp rest hf = or_bad_bool (parse_bool rest) (λ v. record hf { dhcp = v })

abbrev set_ip : Runtime → List Text → Handler
set_ip rt (a ∷ m ∷ g ∷ []) rest hf =
    if not (rt.is_ip a)
    then err bad_address
    else if not (rt.is_ip m)
    then err bad_address
    else if not (rt.is_ip g)
    then err bad_address
    else ok (record hf { static_ip = some (record { address = a; netmask = m; gateway = g }) })
set_ip rt _ rest hf = err ip_fields

unfoldable pub apply_ip : Runtime → Handler
unfolding fields
apply_ip rt rest hf = set_ip rt (fields rest) rest hf

abbrev pub formats : List Text
formats = codes "iso" ∷ codes "raw" ∷ codes "vhd" ∷ []

unfoldable pub apply_format : Handler
unfolding eqt
apply_format rest hf =
    if not (member rest formats) then err bad_format else ok (record hf { format = rest })

unfoldable pub apply_user : Handler
apply_user rest hf = if is_empty rest then err missing_value else ok (record hf { user = rest })

unfoldable pub apply_workdir : Handler
apply_workdir rest hf =
    if is_empty rest then err missing_value else ok (record hf { workdir = rest })

unfoldable pub apply_firewall_on_error : Handler
unfolding eqt
apply_firewall_on_error rest hf =
    if not (eqt rest (codes "open") || eqt rest (codes "closed"))
    then err bad_firewall_on_error
    else ok (record hf { firewall_on_error = rest })

unfoldable pub apply_tmpsize : Handler
unfolding validate_tmpfs_size
apply_tmpsize rest hf = do _ ← validate_tmpfs_size rest; ok (record hf { tmpfs_size = rest })

abbrev set_stop_grace : Option ℤ → Nimbusfile → Result Reason Nimbusfile
set_stop_grace none hf = err bad_stop_grace
set_stop_grace (some (negsuc n)) hf = err bad_stop_grace
set_stop_grace (some (pos zero)) hf = err bad_stop_grace
set_stop_grace (some (pos (suc n))) hf = ok (record hf { stop_grace = suc n })

unfoldable pub apply_stopgrace : Handler
unfolding atoi
apply_stopgrace rest hf = set_stop_grace (atoi rest) hf

abbrev is_key_size : Option ℕ → Bool
is_key_size none = false
is_key_size (some n) = n == 32

-- An Ed25519 public key has 32 bytes.
unfoldable pub apply_pieceskey : Handler
unfolding hex_bytes lower
apply_pieceskey rest hf =
    if not (is_key_size (hex_bytes rest))
    then err bad_pieces_key
    else ok (record hf { pieces_key = map lower rest })
