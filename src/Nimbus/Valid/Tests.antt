-- ===== src/Nimbus/Valid/Tests.antt =====
-- The Boolean tests of the validators decide the predicates of `Valid`.
use cnimbus.Common.{All, List, [], arith, false, ok, refl, true, ℕ, ◌∷◌, ◌≡◌, ◌≢◌, ◌≤◌}
use cnimbus.Common.Number.{all_chars}
use cnimbus.Common.Text.{Text, contains, contains_any, eqt_iff, fields}
use cnimbus.Nimbus.Checks.{
  firewall_meta_chars, is_country, is_hex_key, is_printable, member, starts_with_operation,
  validate_firewall_rule, validate_wifi_country, validate_wifi_psk, validate_wifi_ssid,
  wifi_meta_chars,
}
use cnimbus.Nimbus.Lines.{is_empty}
use cnimbus.Nimbus.Valid.{Avoids, IsCountry, IsPsk, IsSafeRule, IsSsid, OneOf, StartsWithOp}

pub member→OneOf : (t : Text) (ws : List Text) → member t ws ≡ true → OneOf t ws
unfolding OneOf
member→OneOf t [] h = cc
member→OneOf t (w ∷ ws) h = ground (arith, eqt_iff t w, member→OneOf t ws)

pub OneOf→member : (t : Text) (ws : List Text) → OneOf t ws → member t ws ≡ true
unfolding OneOf
OneOf→member t [] h = absurd h
OneOf→member t (w ∷ ws) h = ground (arith, eqt_iff t w, OneOf→member t ws)

contains→All : (chars : Text) (c : ℕ) → contains chars c ≡ false → All (λ m. c ≢ m) chars
unfolding contains
contains→All [] c h = tt
contains→All (m ∷ ms) c h = ground (arith, contains→All ms c)

pub contains_any→Avoids : (chars s : Text) → contains_any s chars ≡ false → Avoids chars s
unfolding contains_any Avoids
contains_any→Avoids chars [] h = tt
contains_any→Avoids chars (c ∷ s) h =
    ground (arith, contains→All chars c, contains_any→Avoids chars s)

starts→StartsWithOp : (fs : List Text) → starts_with_operation fs ≡ true → StartsWithOp fs
unfolding starts_with_operation StartsWithOp
starts→StartsWithOp [] h = cc
starts→StartsWithOp (f ∷ fs) h = member→OneOf f _ h

pub validate_firewall_rule-IsSafeRule :
    (rule : Text) → validate_firewall_rule rule ≡ ok tt → IsSafeRule rule
unfolding validate_firewall_rule IsSafeRule
validate_firewall_rule-IsSafeRule rule h =
    ground (arith, contains_any→Avoids firewall_meta_chars rule, starts→StartsWithOp (fields rule))

pub validate_wifi_ssid-IsSsid : (ssid : Text) → validate_wifi_ssid ssid ≡ ok tt → IsSsid ssid
unfolding validate_wifi_ssid IsSsid
validate_wifi_ssid-IsSsid ssid h = ground (arith, contains_any→Avoids wifi_meta_chars ssid)

All-is_printable :
    (s : Text) → all_chars is_printable s ≡ true → All (λ c. (0x20 ≤ c) × (c ≤ 0x7e)) s
unfolding all_chars is_printable
All-is_printable [] h = tt
All-is_printable (c ∷ s) h = ground (arith, All-is_printable s)

pub validate_wifi_psk-IsPsk : (psk : Text) → validate_wifi_psk psk ≡ ok tt → IsPsk psk
unfolding validate_wifi_psk is_hex_key IsPsk
validate_wifi_psk-IsPsk psk h =
    ground (arith, contains_any→Avoids wifi_meta_chars psk, All-is_printable psk)

pub validate_wifi_country-IsCountry :
    (country : Text) → validate_wifi_country country ≡ ok tt → IsCountry country
unfolding validate_wifi_country is_country IsCountry
validate_wifi_country-IsCountry [] h = cc
validate_wifi_country-IsCountry (c ∷ []) h = cc
validate_wifi_country-IsCountry (c ∷ d ∷ []) h = ground arith
validate_wifi_country-IsCountry (c ∷ d ∷ e ∷ s) h = cc

pub is_empty→eq : (s : Text) → is_empty s ≡ true → s ≡ []
is_empty→eq [] h = refl
is_empty→eq (c ∷ s) h = cc

pub is_empty→ne : (s : Text) → is_empty s ≡ false → s ≢ []
is_empty→ne [] h = cc
is_empty→ne (c ∷ s) h = cc
