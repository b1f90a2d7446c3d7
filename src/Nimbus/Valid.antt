-- ===== src/Nimbus/Valid.antt =====
-- What holds of a manifest that the parser of internal/nimbusfile/nimbusfile.go accepts.
pub mod Tests
pub mod Settings
pub mod Health
pub mod Lists
pub mod Agents
pub mod Copies
pub mod Parse
use cnimbus.Common.{All, Holds, List, Option, [], length, none, some, true, ◌∷◌, ◌≡◌, ◌≢◌, ◌≤◌, ◌⊎◌}
use cnimbus.Common.Number.{all_chars, atoi, is_hex, ℤ}
use cnimbus.Common.Text.{Text, codes, fields, utf8_len}
use cnimbus.Nimbus.Agent.{special_kinds}
use cnimbus.Nimbus.Checks.{firewall_meta_chars, firewall_ops, is_tmpfs_size, wifi_meta_chars}
use cnimbus.Nimbus.Copy.{special_bits}
use cnimbus.Nimbus.Lists.{fs_types, policies}
use cnimbus.Nimbus.Settings.{Handler, boot_profiles, formats}
use cnimbus.Nimbus.Types.{
  Agent, AgentHeader, CopyOp, EnvVar, ExposedPort, Healthcheck, Nimbusfile, Runtime, Service,
  StaticIp, Volume,
}

-- `t` is one of the words.
pub OneOf : Text → List Text → Type 0
OneOf t [] = ⊥
OneOf t (w ∷ ws) = (t ≡ w) ⊎ OneOf t ws

-- No character of `s` is one of `chars`.
pub Avoids : Text → Text → Type 0
Avoids chars s = All (λ c. All (λ m. c ≢ m) chars) s

-- A text that is absent, or has the property.
pub IsUnsetOr : (Text → Type 0) → Text → Type 0
IsUnsetOr P s = (s ≡ []) ⊎ P s

pub StartsWithOp : List Text → Type 0
StartsWithOp [] = ⊥
StartsWithOp (f ∷ fs) = OneOf f firewall_ops

-- The rule is safe to splice into a shell script, and starts with an iptables operation.
pub IsSafeRule : Text → Type 0
IsSafeRule rule = Avoids firewall_meta_chars rule × StartsWithOp (fields rule)

pub IsSsid : Text → Type 0
IsSsid s = (utf8_len s ≤ 32) × Avoids wifi_meta_chars s

-- A key of 64 hexadecimal digits, or a passphrase of 8 to 63 printable bytes.
pub IsPsk : Text → Type 0
IsPsk s =
    ((length s ≡ 64) × (all_chars is_hex s ≡ true))
    ⊎ ((8 ≤ utf8_len s)
        × (utf8_len s ≤ 63)
        × Avoids wifi_meta_chars s
        × All (λ c. (0x20 ≤ c) × (c ≤ 0x7e)) s)

-- Two capital letters.
pub IsCountry : Text → Type 0
IsCountry (c ∷ d ∷ []) = (b'A' ≤ c) × (c ≤ b'Z') × (b'A' ≤ d) × (d ≤ b'Z')
IsCountry _ = ⊥

pub IsPiecesKey : Text → Type 0
IsPiecesKey s = (length s ≡ 64) × (all_chars is_hex s ≡ true)

pub IsPort : ExposedPort → Type 0
IsPort e = (1 ≤ e.port) × (e.port ≤ 65535) × OneOf e.proto (codes "tcp" ∷ codes "udp" ∷ [])

pub IsVolume : Volume → Type 0
IsVolume v = OneOf v.fs_type fs_types

pub HasKey : EnvVar → Type 0
HasKey v = v.key ≢ []

pub IsService : Service → Type 0
IsService s = (s.name ≢ []) × OneOf s.restart ([] ∷ policies)

pub IsCopy : CopyOp → Type 0
IsCopy c = (c.src ≢ []) × (c.dest ≢ []) × (special_bits c.chmod ≡ 0)

pub IsHeader : AgentHeader → Type 0
IsHeader h = (h.name ≢ []) × (h.value ≢ [])

pub IsInteger : Text → Type 0
IsInteger s = (n : ℤ) × (atoi s ≡ some n)

-- Headers are given to an HTTP agent only.
pub IsAgent : Option Agent → Type 0
IsAgent none = Unit
IsAgent (some a) =
    OneOf a.kind (codes "http" ∷ special_kinds)
    × IsInteger a.interval
    × All IsHeader a.headers
    × ((a.headers ≡ []) ⊎ (a.kind ≡ codes "http"))

pub IsStaticIp : Runtime → Option StaticIp → Type 0
IsStaticIp rt none = Unit
IsStaticIp rt (some ip) =
    (rt.is_ip ip.address ≡ true) × (rt.is_ip ip.netmask ≡ true) × (rt.is_ip ip.gateway ≡ true)

-- The flags of HEALTHCHECK are integers, given or not.
pub IsHealthcheck : Option Healthcheck → Type 0
IsHealthcheck none = Unit
IsHealthcheck (some h) = IsInteger h.interval × IsInteger h.retries

pub IsGiven : Text → Type 0
IsGiven s = s ≢ []

-- The invariant of the loop over the lines.
pub record IsValid (rt : Runtime) (hf : Nimbusfile) : Type 0 where
  pub kernel_version : IsGiven hf.kernel_version
  pub busybox_version : IsGiven hf.busybox_version
  pub hostname : IsGiven hf.hostname
  pub ntp : All IsGiven hf.ntp
  pub healthcheck : IsHealthcheck hf.healthcheck
  pub arch : OneOf hf.arch (codes "amd64" ∷ codes "arm64" ∷ [])
  pub boot_profile : OneOf hf.boot_profile boot_profiles
  pub format : OneOf hf.format formats
  pub wifi_ssid : IsSsid hf.wifi_ssid
  pub wifi_psk : IsUnsetOr IsPsk hf.wifi_psk
  pub wifi_country : IsUnsetOr IsCountry hf.wifi_country
  pub static_ip : IsStaticIp rt hf.static_ip
  pub dns : All (λ s. rt.is_ip s ≡ true) hf.dns
  pub volumes : All IsVolume hf.volumes
  pub env : All HasKey hf.env
  pub labels : All HasKey hf.labels
  pub firewall : All IsSafeRule hf.firewall
  pub firewall6 : All IsSafeRule hf.firewall6
  pub firewall_on_error : OneOf hf.firewall_on_error ([] ∷ codes "open" ∷ codes "closed" ∷ [])
  pub tmpfs_size : IsUnsetOr (λ s. is_tmpfs_size s ≡ true) hf.tmpfs_size
  pub pieces_key : IsUnsetOr IsPiecesKey hf.pieces_key
  pub copies : All IsCopy hf.copies
  pub services : All IsService hf.services
  pub entrypoint_restart : OneOf hf.entrypoint_restart policies
  pub agent : IsAgent hf.agent
  pub exposed : All IsPort hf.exposed

-- The handler keeps the invariant whenever it accepts.
abbrev pub Keeps : Runtime → Handler → Type 0
Keeps rt f = (rest : Text) (hf : Nimbusfile) → IsValid rt hf → Holds (IsValid rt) (f rest hf)

-- The WiFi settings are all there under a WiFi profile, and all absent under another.
pub WifiAgrees : Nimbusfile → Type 0
WifiAgrees hf =
    (OneOf hf.boot_profile (codes "wifi" ∷ codes "eth+wifi" ∷ [])
      × (hf.wifi_ssid ≢ [])
      × IsPsk hf.wifi_psk
      × IsCountry hf.wifi_country)
    ⊎ (OneOf hf.boot_profile (codes "none" ∷ codes "eth" ∷ [])
        × (hf.wifi_ssid ≡ [])
        × (hf.wifi_psk ≡ [])
        × (hf.wifi_country ≡ []))

Avoids-newline : (s : Text) → Avoids firewall_meta_chars s → All (λ c. c ≢ 10) s
unfolding Avoids
Avoids-newline [] h = tt
Avoids-newline (c ∷ s) h = (h.0.1.1.1.1.1.1.1.1.1.0, Avoids-newline s h.1)

-- A rule that the parser accepts is one line.
pub IsSafeRule-newline : (rule : Text) → IsSafeRule rule → All (λ c. c ≢ 10) rule
unfolding IsSafeRule
IsSafeRule-newline rule h = Avoids-newline rule h.0
