-- ===== src/Scripts/Boot/Supplicant.antt =====
-- The configuration of wpa_supplicant, for the values that internal/nimbusfile accepts.
use cnimbus.Common.{
  Bool-cases, List, [], ap, arith, false, if◌then◌else◌, inl, inr, ok, refl, true, ◌++◌, ◌∙◌, ◌∷◌,
  ◌≡◌, ◌⊎◌,
}
use cnimbus.Common.Number.{all_chars, is_hex}
use cnimbus.Common.Text.{Text, codes, contains, contains_any}
use cnimbus.Nimbus.Checks.{
  is_country, is_hex_key, validate_wifi_country, validate_wifi_psk, validate_wifi_ssid,
}
use cnimbus.Nimbus.Lists.{key_value}
use cnimbus.Scripts.Boot.Wifi.{build_wpa_supplicant_conf, quote_specials, wpa_conf_quote}
use cnimbus.Scripts.LineBreaks.{OneLine, contains-append, lines-unlines}
use cnimbus.Scripts.Reader.{lines}
use cnimbus.Scripts.Shell.{unlines}

quote_specials-plain :
    (s : Text) → contains_any s (codes "\"\\\n\r") ≡ false → (quote_specials s ≡ s) × OneLine s
unfolding quote_specials contains_any contains
quote_specials-plain [] h = (refl, refl)
quote_specials-plain (c ∷ s) h = ground (arith, quote_specials-plain s)

hex-OneLine : (s : Text) → all_chars is_hex s ≡ true → OneLine s
unfolding contains all_chars is_hex
hex-OneLine [] h = refl
hex-OneLine (c ∷ s) h = ground (arith, hex-OneLine s)

-- What wpa_supplicant takes as the value of a line: all that stands in the outer quotes, as it is.
abbrev in_quotes : Text → Text
in_quotes s = 34 ∷ (s ++ 34 ∷ [])

validated_ssid :
    (ssid : Text) → validate_wifi_ssid ssid ≡ ok tt → contains_any ssid (codes "\"\\\n\r") ≡ false
unfolding validate_wifi_ssid
validated_ssid ssid h = ground arith

validated_psk :
    (psk : Text)
    → validate_wifi_psk psk ≡ ok tt
    → (is_hex_key psk ≡ true)
      ⊎ ((is_hex_key psk ≡ false) × (contains_any psk (codes "\"\\\n\r") ≡ false))
unfolding validate_wifi_psk
validated_psk psk h = elim (Bool-cases (is_hex_key psk)) [
  | inl e ↦ inl e
  | inr e ↦ inr (e, ground (arith, h, e))
]

abbrev pub psk_value : Text → Text
psk_value psk = if is_hex_key psk then psk else in_quotes psk

wpa_conf_quote-plain :
    (s : Text)
    → contains_any s (codes "\"\\\n\r") ≡ false
    → (wpa_conf_quote s ≡ in_quotes s) × OneLine (in_quotes s)
unfolding wpa_conf_quote contains
wpa_conf_quote-plain s h =
    let both = quote_specials-plain s h in
    (ap (λ t. 34 ∷ (t ++ 34 ∷ [])) both.0, ground (arith, contains-append s (34 ∷ []) 10, both.1))

abbrev coded_psk : Text → Text
coded_psk psk = if is_hex_key psk then psk else wpa_conf_quote psk

hex_key-all : (psk : Text) → is_hex_key psk ≡ true → all_chars is_hex psk ≡ true
unfolding is_hex_key
hex_key-all psk h = ground arith

psk_value-validated :
    (psk : Text)
    → validate_wifi_psk psk ≡ ok tt
    → (coded_psk psk ≡ psk_value psk) × OneLine (psk_value psk)
psk_value-validated psk h = elim (validated_psk psk h) [
  | inl e ↦ rw e (refl, hex-OneLine psk (hex_key-all psk e))
  | inr both ↦ rw both.0 (wpa_conf_quote-plain psk both.1)
]

country-OneLine : (country : Text) → validate_wifi_country country ≡ ok tt → OneLine country
unfolding validate_wifi_country is_country contains
country-OneLine [] h = refl
country-OneLine (c ∷ []) h = ground arith
country-OneLine (c ∷ d ∷ []) h = ground arith
country-OneLine (c ∷ d ∷ e ∷ s) h = ground arith

-- The lines around the two values.
abbrev conf_with : Text → Text → Text → List Text
conf_with ssid_value key_value country =
    codes "# Generated by cnimbus (F6.5) -- do not edit by hand."
    ∷ codes "# Carries the WIFIPSK secret in plain text (wpa_supplicant has no other"
    ∷ codes "# way to consume a PSK); this file must stay 0600 -- see BuildImages."
    ∷ codes "ap_scan=1"
    ∷ (codes "country=" ++ country)
    ∷ codes "network={"
    ∷ (codes "  ssid=" ++ ssid_value)
    ∷ (codes "  psk=" ++ key_value)
    ∷ codes "  key_mgmt=WPA-PSK"
    ∷ codes "}"
    ∷ []

abbrev pub conf_lines : Text → Text → Text → List Text
conf_lines ssid psk country = conf_with (in_quotes ssid) (psk_value psk) country

-- For a WiFi name, key and country that the parser accepts, the configuration has exactly ten
-- lines: the name stands between its quotes as it was given, without an escape, and so does the
-- key unless it is the 64 hexadecimal digits, which stand bare. No value adds a line.
pub lines-build_wpa_supplicant_conf :
    (ssid psk country : Text)
    → validate_wifi_ssid ssid ≡ ok tt
    → validate_wifi_psk psk ≡ ok tt
    → validate_wifi_country country ≡ ok tt
    → lines (build_wpa_supplicant_conf ssid psk country) ≡ conf_lines ssid psk country
unfolding build_wpa_supplicant_conf validate_wifi_country contains
lines-build_wpa_supplicant_conf ssid psk [] hs hp hc = ground arith
lines-build_wpa_supplicant_conf ssid psk (c ∷ s) hs hp hc =
    let name = wpa_conf_quote-plain ssid (validated_ssid ssid hs) in
    let key = psk_value-validated psk hp in
    ap (λ q. lines (unlines (conf_with q (coded_psk psk) (c ∷ s)))) name.0
    ∙ ap (λ q. lines (unlines (conf_with (in_quotes ssid) q (c ∷ s)))) key.0
    ∙ lines-unlines (conf_with (in_quotes ssid) (psk_value psk) (c ∷ s)) (
      refl,
      (
        refl,
        (refl, (refl, (country-OneLine (c ∷ s) hc, (refl, (name.1, (key.1, (refl, (refl, tt)))))))),
      ),
    )
