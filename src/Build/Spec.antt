-- ===== src/Build/Spec.antt =====
-- cmd/cnimbus/build.go: what runBuild takes from a manifest for BuildImages. The types of
-- internal/rootfs that mirror those of the manifest are the manifest's own, so that staticIP,
-- volumes, envVars and healthcheck copy them unchanged.
use mathlib.Core.List.{map}
use cnimbus.Common.{List, Option, [], if◌then◌else◌, none, some, ◌++◌, ◌∷◌}
use cnimbus.Common.Bytes.{Bytes}
use cnimbus.Common.Number.{format_uint}
use cnimbus.Common.Text.{Text, codes, eqt, utf8}
use cnimbus.Nimbus.Types.{Agent, EnvVar, ExposedPort, Nimbusfile, Service}
use cnimbus.Scripts.Shell.{concat, unlines}
use cnimbus.Scripts.Spec.{BusyboxApplet, ExtraFile, GuestAgent, PiecesSpec}

-- CMD alone is the command; after ENTRYPOINT it is the command's arguments.
abbrev pub command_of : List Text → List Text → List Text
command_of [] cmd = cmd
command_of (e ∷ entrypoint) cmd = (e ∷ entrypoint) ++ cmd

abbrev entrypoint_service : List Text → Text → List Service
entrypoint_service [] restart = []
entrypoint_service (a ∷ argv) restart =
    record { name = codes "entrypoint"; argv = a ∷ argv; restart = restart } ∷ []

unfoldable pub services : Nimbusfile → List Service
services hf =
    entrypoint_service (command_of hf.entrypoint hf.cmd) hf.entrypoint_restart ++ hf.services

-- The embedded binaries for the two architectures are arguments.
unfoldable pub agent_for : Bytes → Bytes → Text → Option Agent → Option GuestAgent
unfolding eqt
agent_for arm amd arch none = none
agent_for arm amd arch (some a) = some record {
  kind = a.kind;
  url = a.url;
  interval = a.interval;
  headers = a.headers;
  agent_binary = if eqt arch (codes "arm64") then arm else amd;
}

abbrev label_line : EnvVar → Text
label_line l = concat (l.key ∷ codes "=" ∷ l.value ∷ [])

abbrev expose_line : ExposedPort → Text
expose_line e = concat (codes "EXPOSE=" ∷ format_uint 10 e.port ∷ codes "/" ∷ e.proto ∷ [])

abbrev identity_lines : Nimbusfile → List Text
identity_lines hf =
    (codes "HOSTNAME=" ++ hf.hostname)
    ∷ (codes "ARCH=" ++ hf.arch)
    ∷ (codes "FORMAT=" ++ hf.format)
    ∷ []

unfoldable pub release_file : Text → Nimbusfile → ExtraFile
unfolding concat unlines format_uint utf8
release_file version hf = record {
  path = codes "etc/cnimbus-release";
  perm = 0o644;
  data_bytes = utf8 (
      unlines (
        (codes "CNIMBUS_VERSION=" ++ version)
        ∷ (identity_lines hf ++ (map label_line hf.labels ++ map expose_line hf.exposed))));
}

unfoldable pub cnimbus_metadata_cfg : Text → Nimbusfile → Text
unfolding unlines
cnimbus_metadata_cfg version hf =
    unlines (identity_lines hf ++ (codes "CNIMBUS_VERSION=" ++ version) ∷ [])

-- What a build adds to the manifest: the pieces, their applets, the files of COPY and ADD, and the
-- directory for temporary files.
pub record BuildInputs : Type 0 where
  pub busybox_input : Bytes
  pub applets_input : List BusyboxApplet
  pub iptables_input : Bytes
  pub supplicant_input : Bytes
  pub wifi_input : List (Text × Bytes)
  pub ethernet_input : List (Text × Bytes)
  pub files_input : List ExtraFile
  pub tmp_input : Text
  pub arm_agent : Bytes
  pub amd_agent : Bytes

unfoldable pub spec_of : BuildInputs → Nimbusfile → PiecesSpec
unfolding services agent_for
spec_of inputs hf = record {
  busybox_binary = inputs.busybox_input;
  busybox_applets = inputs.applets_input;
  hostname = hf.hostname;
  dhcp = hf.dhcp;
  static_ip = hf.static_ip;
  dns = hf.dns;
  ntp = hf.ntp;
  volumes = hf.volumes;
  firewall = hf.firewall;
  firewall6 = hf.firewall6;
  firewall_on_error = hf.firewall_on_error;
  iptables = inputs.iptables_input;
  supplicant = inputs.supplicant_input;
  wifi_firmware = inputs.wifi_input;
  ethernet_firmware = inputs.ethernet_input;
  boot_profile = hf.boot_profile;
  wifi_ssid = hf.wifi_ssid;
  wifi_psk = hf.wifi_psk;
  wifi_country = hf.wifi_country;
  env = hf.env;
  user = hf.user;
  extra_files = inputs.files_input;
  services = services hf;
  agent = agent_for inputs.arm_agent inputs.amd_agent hf.arch hf.agent;
  workdir = hf.workdir;
  healthcheck = hf.healthcheck;
  tmpfs_size = hf.tmpfs_size;
  tmp_dir = inputs.tmp_input;
  stop_grace = hf.stop_grace;
  vga = hf.vga;
}
