-- ===== src/Scripts/Spec.antt =====
-- What internal/rootfs/frompieces.go is given to build an image. EnvVar, StaticIP, Volume,
-- Service, AgentHeader and Healthcheck have the fields of their namesakes in
-- internal/nimbusfile, and are those of Nimbus/Types.
use cnimbus.Common.{Bool, List, Option, ℕ}
use cnimbus.Common.Bytes.{Bytes}
use cnimbus.Common.Text.{Text}
use cnimbus.Nimbus.Types.{AgentHeader, EnvVar, Healthcheck, Service, StaticIp, Volume}

pub record ExtraFile : Type 0 where
  pub path : Text
  pub perm : ℕ
  pub data_bytes : Bytes

pub record GuestAgent : Type 0 where
  pub kind : Text
  pub url : Text
  pub interval : Text
  pub headers : List AgentHeader
  pub agent_binary : Bytes

pub record BusyboxApplet : Type 0 where
  pub applet_path : Text
  pub target : Text

pub record PiecesSpec : Type 0 where
  pub busybox_binary : Bytes
  pub busybox_applets : List BusyboxApplet
  pub hostname : Text
  pub dhcp : Bool
  pub static_ip : Option StaticIp
  pub dns : List Text
  pub ntp : List Text
  pub volumes : List Volume
  pub firewall : List Text
  pub firewall6 : List Text
  pub firewall_on_error : Text
  pub iptables : Bytes
  pub supplicant : Bytes
  pub wifi_firmware : List (Text × Bytes)
  pub ethernet_firmware : List (Text × Bytes)
  pub boot_profile : Text
  pub wifi_ssid : Text
  pub wifi_psk : Text
  pub wifi_country : Text
  pub env : List EnvVar
  pub user : Text
  pub extra_files : List ExtraFile
  pub services : List Service
  pub agent : Option GuestAgent
  pub workdir : Text
  pub healthcheck : Option Healthcheck
  pub tmpfs_size : Text
  pub tmp_dir : Text
  pub stop_grace : ℕ
  pub vga : Bool
