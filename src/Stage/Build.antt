-- ===== src/Stage/Build.antt =====
-- `BuildImages` of internal/rootfs/frompieces.go and `buildStage1Initramfs` of stage1.go. `gzip`
-- is the compressor of the standard library. The firmware's maps are lists of their entries, in
-- the order in which Go's loop takes them.
use mathlib.Core.List.{map}
use cnimbus.Common.{
  Bool, List, Option, Result, [], false, if◌then◌else◌, none, not, ok, some, true, ℕ, ◌&&◌, ◌++◌,
  ◌>>=◌, ◌∷◌,
}
use cnimbus.Common.Bytes.{Bytes}
use cnimbus.Common.Text.{Text, codes, eqt, utf8}
use cnimbus.Nimbus.Checks.{has_wifi_driver}
use cnimbus.Nimbus.Types.{Healthcheck, Service}
use cnimbus.Rootfs.Ancestors.{Addition, add_all, dir_at, file_at, symlink_at}
use cnimbus.Rootfs.Cpio.{build_cpio}
use cnimbus.Rootfs.Tree.{new_file_tree}
use cnimbus.Scripts.AgentScript.{build_agent_script}
use cnimbus.Scripts.Boot.Network.{is_set}
use cnimbus.Scripts.Boot.Wifi.{build_wpa_supplicant_conf}
use cnimbus.Scripts.Fixed.{
  acpi_power_script, build_console_say_script, udhcpc_script, udhcpc_script_secondary,
}
use cnimbus.Scripts.Inittab.{agent_script_path, supervisor_script_path}
use cnimbus.Scripts.Spec.{BusyboxApplet, ExtraFile, GuestAgent, PiecesSpec}
use cnimbus.Scripts.Supervisor.{build_supervisor_script}
use cnimbus.Stage.Init.{build_stage1_init}
use cnimbus.Stage.Root.{root_dirs, root_files_of}
use cnimbus.Stage.Shadow.{split_shadowed_files, trim_leading_slash}
use cnimbus.Stage.Tmpfs.{SizeFailure, check_shadowed_files_fit_tmpfs}

abbrev file : Text → ℕ → Bytes → ExtraFile
file path perm content = record { path = path; perm = perm; data_bytes = content }

-- HEALTHCHECK belongs to the entrypoint.
abbrev health_of : Text → Option Healthcheck → Option Healthcheck
health_of name hc = if eqt name (codes "entrypoint") then hc else none

unfoldable pub supervisor_file : PiecesSpec → Service → ExtraFile
unfolding build_supervisor_script supervisor_script_path eqt utf8
supervisor_file spec svc = file (supervisor_script_path svc.name) 0o600 (
    utf8 (
      build_supervisor_script svc spec.env spec.user spec.workdir
        (health_of svc.name spec.healthcheck)))

unfoldable pub agent_file : GuestAgent → ExtraFile
unfolding build_agent_script utf8
agent_file a = file agent_script_path 0o600 (utf8 (build_agent_script a))

unfoldable pub agent_files : Option GuestAgent → List ExtraFile
unfolding agent_file eqt
agent_files none = []
agent_files (some a) = if eqt a.kind (codes "http") then agent_file a ∷ [] else []

-- `extraFiles` before it is split.
unfoldable pub all_files : PiecesSpec → List ExtraFile
unfolding supervisor_file agent_files
all_files spec =
    spec.extra_files ++ (map (supervisor_file spec) spec.services ++ agent_files spec.agent)

abbrev when : Bool → ExtraFile → List ExtraFile
when b f = if b then f ∷ [] else []

abbrev has_bytes : Bytes → Bool
has_bytes [] = false
has_bytes (x ∷ xs) = true

abbrev agent_binaries : Option GuestAgent → List ExtraFile
agent_binaries none = []
agent_binaries (some a) = file (codes "usr/bin/cnimbusagent") 0o755 a.agent_binary ∷ []

-- The program's own files of the first stage.
unfoldable pub system_files : PiecesSpec → List ExtraFile
unfolding udhcpc_script udhcpc_script_secondary build_wpa_supplicant_conf has_wifi_driver utf8
system_files spec =
    when (spec.dhcp && not (is_set spec.static_ip))
      (file (codes "sbin/udhcpc.script") 0o755 (utf8 udhcpc_script))
    ++ (file (codes "sbin/udhcpc-secondary.script") 0o755 (utf8 udhcpc_script_secondary)
        ∷ (when (has_bytes spec.iptables)
              (file (codes "usr/sbin/cnimbus-iptables") 0o755 spec.iptables)
            ++ (file (codes "sbin/powerbtn.sh") 0o755 (utf8 acpi_power_script)
                ∷ (when (has_bytes spec.supplicant)
                      (file (codes "usr/sbin/wpa_supplicant") 0o755 spec.supplicant)
                    ++ (when (has_wifi_driver spec.boot_profile && has_bytes spec.supplicant) (
                          file (codes "usr/sbin/wpa_supplicant.conf") 0o600 (
                            utf8 (
                              build_wpa_supplicant_conf spec.wifi_ssid spec.wifi_psk
                                spec.wifi_country)))
                        ++ agent_binaries spec.agent)))))

unfoldable pub shadowed_files : PiecesSpec → List ExtraFile
unfolding split_shadowed_files all_files system_files
shadowed_files spec = (split_shadowed_files (all_files spec)).shadowed ++ system_files spec

unfoldable pub normal_files : PiecesSpec → List ExtraFile
unfolding split_shadowed_files all_files
normal_files spec = (split_shadowed_files (all_files spec)).normal

unfoldable pub put_entry : Text → Bytes → List (Text × Bytes) → List (Text × Bytes)
unfolding eqt
put_entry path content [] = (path, content) ∷ []
put_entry path content ((p, d) ∷ m) =
    let rest = put_entry path content m in if eqt path p then (path, content) ∷ m else (p, d) ∷ rest

abbrev put_all : List (Text × Bytes) → List (Text × Bytes) → List (Text × Bytes)
put_all m [] = m
put_all m ((p, d) ∷ es) = put_all (put_entry p d m) es

unfoldable pub merge_firmware_maps : List (Text × Bytes) → List (Text × Bytes) → List (Text × Bytes)
unfolding put_entry
merge_firmware_maps [] ethernet = ethernet
merge_firmware_maps (w ∷ wifi) [] = w ∷ wifi
merge_firmware_maps (w ∷ wifi) (e ∷ ethernet) = put_all (put_all [] (w ∷ wifi)) (e ∷ ethernet)

abbrev shadow_addition : ExtraFile → Addition
shadow_addition f =
    file_at (utf8 (codes "shadow/" ++ trim_leading_slash f.path)) f.perm f.data_bytes

abbrev firmware_addition : Text × Bytes → Addition
firmware_addition (path, content) =
    file_at (utf8 (codes "lib/firmware/" ++ trim_leading_slash path)) 0o644 content

abbrev applet_addition : BusyboxApplet → Addition
applet_addition a = symlink_at (utf8 a.applet_path) (utf8 a.target)

-- The calls on the tree of the first stage, in order.
unfoldable pub stage1_additions :
    Bytes → List BusyboxApplet → List ExtraFile → List (Text × Bytes) → Text → List Addition
unfolding trim_leading_slash build_console_say_script build_stage1_init utf8
stage1_additions busybox applets shadowed firmware tmpfs_size =
    map (λ d. dir_at d)
      (codes "dev"
        ∷ codes "proc"
        ∷ codes "sys"
        ∷ codes "etc"
        ∷ codes "mnt/boot"
        ∷ codes "mnt/root"
        ∷ codes "mnt/isoscan"
        ∷ [])
    ++ (file_at (codes "etc/cnimbus-say") 0o755 (utf8 build_console_say_script)
        ∷ file_at (codes "bin/busybox") 0o755 busybox
        ∷ (map applet_addition applets
            ++ (map shadow_addition shadowed
                ++ (map firmware_addition firmware
                    ++ file_at (codes "init") 0o755 (utf8 (build_stage1_init shadowed tmpfs_size))
                      ∷ []))))

unfoldable pub build_stage1_initramfs :
    (Bytes → Bytes)
    → Bytes
    → List BusyboxApplet
    → List ExtraFile
    → List (Text × Bytes)
    → Text
    → Bytes
unfolding stage1_additions add_all build_cpio
build_stage1_initramfs gzip busybox applets shadowed firmware tmpfs_size = gzip (
    build_cpio
      (add_all (stage1_additions busybox applets shadowed firmware tmpfs_size)
        new_file_tree).entries)

pub record ImageParts : Type 0 where
  pub stage1 : Bytes
  pub directories : List Text
  pub root_files : List ExtraFile

abbrev pub with_hostname : PiecesSpec → PiecesSpec
with_hostname spec =
    if eqt spec.hostname [] then record spec { hostname = codes "cnimbus" } else spec

-- `is_ip` is what net.ParseIP accepts.
unfoldable pub build_images :
    (Bytes → Bytes) → (Text → Bool) → PiecesSpec → Result SizeFailure ImageParts
unfolding shadowed_files normal_files check_shadowed_files_fit_tmpfs merge_firmware_maps
    build_stage1_initramfs root_dirs root_files_of eqt
build_images gzip is_ip spec =
    let shadowed = shadowed_files spec in
    check_shadowed_files_fit_tmpfs shadowed spec.busybox_binary spec.tmpfs_size >>= λ fits.
    ok record {
      stage1 =
          build_stage1_initramfs gzip spec.busybox_binary spec.busybox_applets shadowed
            (merge_firmware_maps spec.wifi_firmware spec.ethernet_firmware) spec.tmpfs_size;
      directories = root_dirs spec.volumes;
      root_files = root_files_of is_ip (with_hostname spec) (normal_files spec);
    }
