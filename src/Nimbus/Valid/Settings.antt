-- ===== src/Nimbus/Valid/Settings.antt =====
-- Every directive that sets one value keeps the invariant.
use mathlib.Core.List.{map}
use cnimbus.Common.{[], arith, length, refl, some, true, ℕ, ◌∷◌, ◌≡◌}
use cnimbus.Common.Number.{all_chars, hex_bytes, is_hex}
use cnimbus.Common.Text.{Text, codes, lower}
use cnimbus.Nimbus.Checks.{validate_tmpfs_size}
use cnimbus.Nimbus.Settings.{
  apply_arch, apply_busybox, apply_dhcp, apply_firewall_on_error, apply_format, apply_hardboot,
  apply_hostname, apply_ip, apply_kernel, apply_pieceskey, apply_stopgrace, apply_tmpsize,
  apply_user, apply_vga, apply_wifi, apply_wificountry, apply_wifipsk, apply_workdir, boot_profiles,
  formats,
}
use cnimbus.Nimbus.Types.{Runtime}
use cnimbus.Nimbus.Valid.{IsGiven, IsPiecesKey, IsStaticIp, IsUnsetOr, Keeps}
use cnimbus.Nimbus.Valid.Tests.{
  is_empty→ne, member→OneOf, validate_wifi_country-IsCountry, validate_wifi_psk-IsPsk,
  validate_wifi_ssid-IsSsid,
}

is_hex-lower : (c : ℕ) → is_hex c ≡ true → is_hex (lower c) ≡ true
unfolding is_hex lower
is_hex-lower c h = ground arith

all_hex-lower : (s : Text) → all_chars is_hex s ≡ true → all_chars is_hex (map lower s) ≡ true
unfolding all_chars
all_hex-lower [] h = refl
all_hex-lower (c ∷ s) h = ground (arith, is_hex-lower c, all_hex-lower s)

length-map-lower : (s : Text) → length (map lower s) ≡ length s
length-map-lower [] = refl
length-map-lower (c ∷ s) = omega (arith, length-map-lower s)

hex_bytes-IsPiecesKey : (s : Text) → hex_bytes s ≡ some 32 → IsPiecesKey (map lower s)
unfolding hex_bytes IsPiecesKey
hex_bytes-IsPiecesKey s h = ground (arith, all_hex-lower s, length-map-lower s)

module _ (rt : Runtime) where
  pub apply_kernel-IsValid : Keeps rt apply_kernel
  unfolding apply_kernel IsGiven
  apply_kernel-IsValid rest hf v = ground (arith, is_empty→ne rest)

  pub apply_hardboot-IsValid : Keeps rt apply_hardboot
  unfolding apply_hardboot
  apply_hardboot-IsValid rest hf v = ground (arith, member→OneOf rest boot_profiles)

  pub apply_wifi-IsValid : Keeps rt apply_wifi
  unfolding apply_wifi
  apply_wifi-IsValid rest hf v = ground (arith, validate_wifi_ssid-IsSsid rest)

  pub apply_busybox-IsValid : Keeps rt apply_busybox
  unfolding apply_busybox IsGiven
  apply_busybox-IsValid rest hf v = ground (arith, is_empty→ne rest)

  pub apply_vga-IsValid : Keeps rt apply_vga
  unfolding apply_vga
  apply_vga-IsValid rest hf v = ground arith

  pub apply_hostname-IsValid : Keeps rt apply_hostname
  unfolding apply_hostname IsGiven
  apply_hostname-IsValid rest hf v = ground (arith, is_empty→ne rest)

  pub apply_dhcp-IsValid : Keeps rt apply_dhcp
  unfolding apply_dhcp
  apply_dhcp-IsValid rest hf v = ground arith

  pub apply_user-IsValid : Keeps rt apply_user
  unfolding apply_user
  apply_user-IsValid rest hf v = ground arith

  pub apply_workdir-IsValid : Keeps rt apply_workdir
  unfolding apply_workdir
  apply_workdir-IsValid rest hf v = ground arith

  pub apply_stopgrace-IsValid : Keeps rt apply_stopgrace
  unfolding apply_stopgrace
  apply_stopgrace-IsValid rest hf v = ground arith

  pub apply_arch-IsValid : Keeps rt apply_arch
  unfolding apply_arch
  apply_arch-IsValid rest hf v =
      ground (arith, member→OneOf rest (codes "amd64" ∷ codes "arm64" ∷ []))

  pub apply_format-IsValid : Keeps rt apply_format
  unfolding apply_format
  apply_format-IsValid rest hf v = ground (arith, member→OneOf rest formats)

  pub apply_firewall_on_error-IsValid : Keeps rt apply_firewall_on_error
  unfolding apply_firewall_on_error
  apply_firewall_on_error-IsValid rest hf v =
      ground (arith, member→OneOf rest ([] ∷ codes "open" ∷ codes "closed" ∷ []))

  pub apply_wifipsk-IsValid : Keeps rt apply_wifipsk
  unfolding apply_wifipsk IsUnsetOr
  apply_wifipsk-IsValid rest hf v = ground (arith, validate_wifi_psk-IsPsk rest)

  pub apply_wificountry-IsValid : Keeps rt apply_wificountry
  unfolding apply_wificountry IsUnsetOr
  apply_wificountry-IsValid rest hf v = ground (arith, validate_wifi_country-IsCountry rest)

  pub apply_tmpsize-IsValid : Keeps rt apply_tmpsize
  unfolding apply_tmpsize validate_tmpfs_size IsUnsetOr
  apply_tmpsize-IsValid rest hf v = ground (arith, arith)

  pub apply_ip-IsValid : Keeps rt (apply_ip rt)
  unfolding apply_ip IsStaticIp
  apply_ip-IsValid rest hf v = ground arith

  pub apply_pieceskey-IsValid : Keeps rt apply_pieceskey
  unfolding apply_pieceskey IsUnsetOr
  apply_pieceskey-IsValid rest hf v = ground (arith, hex_bytes-IsPiecesKey rest)
