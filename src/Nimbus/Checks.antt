-- ===== src/Nimbus/Checks.antt =====
-- The validators of internal/nimbusfile/nimbusfile.go.
use cnimbus.Common.{
  ℕ, Bool, true, false, ◌&&◌, ◌||◌, not, List, [], ◌∷◌, ltb, leb, ◌==◌, if◌then◌else◌, Result, ok,
  err, length,
}
use cnimbus.Common.Number.{all_chars, is_hex}
use cnimbus.Common.Text.{Text, codes, eqt, contains_any, fields, utf8_len}
use cnimbus.Nimbus.Types.{
  Reason, ssid_too_long, ssid_metachar, psk_length, psk_metachar, psk_not_printable,
  country_missing, country_malformed, rule_metachar, rule_not_operation, bad_tmpfs_size,
}

abbrev pub member : Text → List Text → Bool
member t [] = false
member t (x ∷ xs) = eqt t x || member t xs

unfoldable pub has_wifi_driver : Text → Bool
unfolding eqt
has_wifi_driver profile = eqt profile (codes "wifi") || eqt profile (codes "eth+wifi")

abbrev pub firewall_meta_chars : Text
firewall_meta_chars = codes ";&|`$()<>\n"

abbrev pub firewall_ops : List Text
firewall_ops =
    codes "-A"
    ∷ codes "--append"
    ∷ codes "-I"
    ∷ codes "--insert"
    ∷ codes "-D"
    ∷ codes "--delete"
    ∷ codes "-R"
    ∷ codes "--replace"
    ∷ codes "-L"
    ∷ codes "--list"
    ∷ codes "-F"
    ∷ codes "--flush"
    ∷ codes "-Z"
    ∷ codes "--zero"
    ∷ codes "-N"
    ∷ codes "--new-chain"
    ∷ codes "-X"
    ∷ codes "--delete-chain"
    ∷ codes "-P"
    ∷ codes "--policy"
    ∷ codes "-E"
    ∷ codes "--rename-chain"
    ∷ []

unfoldable pub starts_with_operation : List Text → Bool
unfolding eqt
starts_with_operation [] = false
starts_with_operation (f ∷ fs) = member f firewall_ops

-- The validators return the unit where Go returns a nil error.
unfoldable pub validate_firewall_rule : Text → Result Reason (Unit {0})
unfolding contains_any fields starts_with_operation
validate_firewall_rule rule =
    if contains_any rule firewall_meta_chars
    then err rule_metachar
    else if starts_with_operation (fields rule)
    then ok tt
    else err rule_not_operation

abbrev is_digit : ℕ → Bool
is_digit c = leb b'0' c && leb c b'9'

abbrev is_size_suffix : ℕ → Bool
is_size_suffix c = c == b'k' || c == b'K' || c == b'm' || c == b'M' || c == b'g' || c == b'G'

-- `[0-9]*[kKmMgG]?$`
unfoldable pub tmpfs_size_tail : Text → Bool
tmpfs_size_tail [] = true
tmpfs_size_tail (c ∷ []) = is_digit c || is_size_suffix c
tmpfs_size_tail (c ∷ d ∷ s) = is_digit c && tmpfs_size_tail (d ∷ s)

-- `tmpfsSizePattern.MatchString`
unfoldable pub is_tmpfs_size : Text → Bool
unfolding tmpfs_size_tail
is_tmpfs_size [] = false
is_tmpfs_size (c ∷ s) = leb b'1' c && leb c b'9' && tmpfs_size_tail s

unfoldable pub validate_tmpfs_size : Text → Result Reason (Unit {0})
unfolding is_tmpfs_size
validate_tmpfs_size size = if is_tmpfs_size size then ok tt else err bad_tmpfs_size

abbrev pub wifi_meta_chars : Text
wifi_meta_chars = codes "\"\\\n\r"

unfoldable pub validate_wifi_ssid : Text → Result Reason (Unit {0})
unfolding utf8_len contains_any
validate_wifi_ssid ssid =
    if ltb 32 (utf8_len ssid)
    then err ssid_too_long
    else if contains_any ssid wifi_meta_chars
    then err ssid_metachar
    else ok tt

-- `wifiPSKHexPattern.MatchString`
unfoldable pub is_hex_key : Text → Bool
unfolding is_hex all_chars
is_hex_key psk = all_chars is_hex psk && length psk == 64

unfoldable pub is_printable : ℕ → Bool
is_printable r = not (ltb r 0x20 || ltb 0x7e r)

unfoldable pub validate_wifi_psk : Text → Result Reason (Unit {0})
unfolding is_hex_key utf8_len contains_any all_chars is_printable
validate_wifi_psk psk =
    if is_hex_key psk
    then ok tt
    else if ltb (utf8_len psk) 8 || ltb 63 (utf8_len psk)
    then err psk_length
    else if contains_any psk wifi_meta_chars
    then err psk_metachar
    else if all_chars is_printable psk
    then ok tt
    else err psk_not_printable

abbrev is_capital : ℕ → Bool
is_capital c = leb b'A' c && leb c b'Z'

-- `wifiCountryPattern.MatchString`
unfoldable pub is_country : Text → Bool
is_country (c ∷ d ∷ []) = is_capital c && is_capital d
is_country _ = false

unfoldable pub validate_wifi_country : Text → Result Reason (Unit {0})
unfolding is_country
validate_wifi_country [] = err country_missing
validate_wifi_country country = if is_country country then ok tt else err country_malformed
