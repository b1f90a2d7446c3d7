-- ===== src/Examples/Stage.antt =====
-- A small image: where its files go, whether they fit, and how the first stage puts them in place.
use cnimbus.Common.{All, Bool, List, [], drop, false, length, none, refl, true, ◌++◌, ◌∷◌, ◌≡◌}
use cnimbus.Common.Number.{format_loop, format_uint}
use cnimbus.Common.Text.{Text, codes, contains, eqt, has_prefix, split, split_loop, trim_prefix}
use cnimbus.Nimbus.Types.{Volume}
use cnimbus.Scripts.Boot.Network.{ntp_can_resolve}
use cnimbus.Scripts.Reader.{lines}
use cnimbus.Scripts.Shell.{unlines}
use cnimbus.Scripts.Spec.{ExtraFile, PiecesSpec}
use cnimbus.Stage.Build.{normal_files, shadowed_files, system_files}
use cnimbus.Stage.Init.{build_stage1_init, stage1_head}
use cnimbus.Stage.Mounts.{IsPlaced, is_distinct, root_dirs-IsPlaced}
use cnimbus.Stage.Order.{run_checks-build_stage1_init}
use cnimbus.Stage.Root.{
  add_built, add_mountpoint, add_mountpoints, is_listed, mount_path, root_dirs,
}
use cnimbus.Stage.Secrets.{IsSecret, root_of, scripts, shadowed_files-IsSecret, with_secrets}
use cnimbus.Stage.Shadow.{split_shadowed_files, trim_leading_slash}
use cnimbus.Stage.Staged.{outside, run_checks, run_commands_in_order, staging_commands}

abbrev sample_spec : PiecesSpec
sample_spec = record {
  busybox_binary = codes "busybox";
  busybox_applets = [];
  hostname = codes "box";
  dhcp = true;
  static_ip = none;
  dns = [];
  ntp = codes "pool.ntp.org" ∷ [];
  volumes = [];
  firewall = [];
  firewall6 = [];
  firewall_on_error = [];
  iptables = [];
  supplicant = [];
  wifi_firmware = [];
  ethernet_firmware = [];
  boot_profile = [];
  wifi_ssid = [];
  wifi_psk = [];
  wifi_country = [];
  env = [];
  user = [];
  extra_files =
      record { path = codes "/usr/bin/tool"; perm = 0o755; data_bytes = codes "tool" }
      ∷ record { path = codes "/srv/index.html"; perm = 0o644; data_bytes = codes "<p>" }
      ∷ [];
  services = record { name = codes "web"; argv = codes "/bin/web" ∷ []; restart = codes "no" } ∷ [];
  agent = none;
  workdir = [];
  healthcheck = none;
  tmpfs_size = [];
  tmp_dir = [];
  stop_grace = 0;
  vga = false;
}

shadowed_files-IsSecret_example :
    (shadowed_files sample_spec
      ≡ (split_shadowed_files sample_spec.extra_files).shadowed
        ++ scripts sample_spec sample_spec.services
        ++ system_files sample_spec)
    × (normal_files sample_spec ≡ (split_shadowed_files sample_spec.extra_files).normal)
    × All IsSecret (scripts sample_spec sample_spec.services)
    × (root_of (λ s. false) (with_secrets sample_spec (codes "other key") [])
        ≡ root_of (λ s. false) sample_spec)
shadowed_files-IsSecret_example =
    shadowed_files-IsSecret (λ s. false) sample_spec (codes "other key") []

-- DHCP itself may give a name server.
dhcp_resolves : ntp_can_resolve (λ s. false) sample_spec ≡ true
unfolding ntp_can_resolve
dhcp_resolves = refl

abbrev tool : ExtraFile
tool = record { path = codes "/usr/bin/tool"; perm = 0o755; data_bytes = codes "tool" }

abbrev always : List Text → Bool
always words = true

run_checks-build_stage1_init_example :
    run_checks always
      (lines (
        drop
          (length (unlines (stage1_head (codes "64m"))))
          (build_stage1_init (tool ∷ []) (codes "64m"))))
      []
      outside
    ≡ run_commands_in_order always [] (staging_commands (tool ∷ []))
unfolding contains
run_checks-build_stage1_init_example =
    run_checks-build_stage1_init always (tool ∷ []) (codes "64m") (refl, tt)

tool_commands :
    staging_commands (tool ∷ [])
    ≡ (codes "cp" ∷ codes "/shadow/usr/bin/tool" ∷ codes "/mnt/root/usr/bin/tool" ∷ [])
      ∷ (codes "chmod" ∷ codes "755" ∷ codes "/mnt/root/usr/bin/tool" ∷ [])
      ∷ []
unfolding staging_commands trim_leading_slash trim_prefix has_prefix format_uint format_loop
tool_commands = refl

-- A size whose product wraps around to one GiB.
abbrev huge_size : Text
huge_size = codes "17179869185g"

abbrev disks : List Volume
disks =
    record {
      device = codes "/dev/vdb";
      mountpoint = codes "/srv/db";
      fs_type = codes "ext4";
      required = true;
    }
    ∷ record {
      device = codes "/dev/vdc";
      mountpoint = codes "/srv/log";
      fs_type = [];
      required = false;
    }
    ∷ []

root_dirs-IsPlaced_example :
    (is_distinct (root_dirs disks) ≡ true)
    × All (λ v. IsPlaced (mount_path v) (root_dirs disks)) disks
root_dirs-IsPlaced_example = root_dirs-IsPlaced disks

disk_dirs : drop 17 (root_dirs disks) ≡ codes "srv" ∷ codes "srv/db" ∷ codes "srv/log" ∷ []
unfolding root_dirs add_mountpoints add_mountpoint add_built is_listed eqt split split_loop
    trim_leading_slash trim_prefix has_prefix
disk_dirs = refl
