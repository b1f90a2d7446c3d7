-- ===== src/Stage/Root.antt =====
-- `buildSquashfsRoot` of internal/rootfs/squashfsroot.go: the directories and the files that it
-- gives to the SquashFS library, in order. The library and the workspace file are not modelled.
use mathlib.Core.List.{map}
use cnimbus.Common.{
  Bool, List, [], false, if◌then◌else◌, true, ℕ, ◌%◌, ◌*◌, ◌++◌, ◌-◌, ◌==◌, ◌||◌, ◌∷◌,
}
use cnimbus.Common.Bytes.{Bytes}
use cnimbus.Common.Text.{Text, codes, eqt, split, utf8}
use cnimbus.Nimbus.Types.{Volume}
use cnimbus.Scripts.Accounts.{build_group, build_hosts_file, build_passwd}
use cnimbus.Scripts.Boot.Network.{acpi_power_handler_path}
use cnimbus.Scripts.Boot.Script.{build_rc_script}
use cnimbus.Scripts.Firewall.{build_firewall_script}
use cnimbus.Scripts.Fixed.{build_console_say_script}
use cnimbus.Scripts.Inittab.{build_inittab}
use cnimbus.Scripts.Shutdown.{build_shutdown_script}
use cnimbus.Scripts.Spec.{ExtraFile, PiecesSpec}
use cnimbus.Stage.Shadow.{trim_leading_slash}

abbrev pub base_dirs : List Text
base_dirs =
    codes "bin"
    ∷ codes "sbin"
    ∷ codes "usr"
    ∷ codes "usr/bin"
    ∷ codes "usr/sbin"
    ∷ codes "dev"
    ∷ codes "proc"
    ∷ codes "sys"
    ∷ codes "tmp"
    ∷ codes "var"
    ∷ codes "var/run"
    ∷ codes "run"
    ∷ codes "mnt"
    ∷ codes "etc"
    ∷ codes "etc/init.d"
    ∷ codes "etc/acpi"
    ∷ codes "etc/acpi/PWRF"
    ∷ []

unfoldable pub is_listed : Text → List Text → Bool
unfolding eqt
is_listed d [] = false
is_listed d (x ∷ xs) = eqt d x || is_listed d xs

-- `seen` holds exactly the directories of the list.
abbrev pub add_new : Text → List Text → List Text
add_new d dirs = if is_listed d dirs then dirs else dirs ++ d ∷ []

-- The elements after the first: `built` is what stands before them.
unfoldable pub add_built : Text → List Text → List Text → List Text
unfolding is_listed
add_built built [] dirs = dirs
add_built built (part ∷ parts) dirs =
    let d = built ++ 47 ∷ part in add_built d parts (add_new d dirs)

abbrev pub add_elements : List Text → List Text → List Text
add_elements [] dirs = dirs
add_elements (part ∷ parts) dirs = add_built part parts (add_new part dirs)

abbrev pub mount_path : Volume → Text
mount_path v = trim_leading_slash v.mountpoint

unfoldable pub add_mountpoint : Text → List Text → List Text
unfolding is_listed add_built split
add_mountpoint [] dirs = dirs
add_mountpoint (c ∷ mnt) dirs = add_elements (split 47 (c ∷ mnt)) dirs

unfoldable pub add_mountpoints : List Volume → List Text → List Text
unfolding add_mountpoint trim_leading_slash
add_mountpoints [] dirs = dirs
add_mountpoints (v ∷ vs) dirs = add_mountpoints vs (add_mountpoint (mount_path v) dirs)

unfoldable pub root_dirs : List Volume → List Text
unfolding add_mountpoints
root_dirs volumes = add_mountpoints volumes base_dirs

abbrev root_file : Text → ℕ → Bytes → ExtraFile
root_file path perm content = record { path = path; perm = perm; data_bytes = content }

abbrev firewall_file : Text → List Text → Text → Bool → List ExtraFile
firewall_file path [] on_error ipv6 = []
firewall_file path (r ∷ rules) on_error ipv6 =
    root_file path 0o755 (utf8 (build_firewall_script (r ∷ rules) on_error ipv6)) ∷ []

abbrev root_entry : ExtraFile → ExtraFile
root_entry f = root_file (trim_leading_slash f.path) f.perm f.data_bytes

-- A later file replaces an earlier one of its path.
unfoldable pub root_files_of : (Text → Bool) → PiecesSpec → List ExtraFile → List ExtraFile
unfolding build_inittab build_console_say_script build_rc_script build_shutdown_script
    build_hosts_file build_passwd build_group build_firewall_script utf8 trim_leading_slash
root_files_of is_ip spec normal =
    root_file (codes "etc/inittab") 0o644 (utf8 (build_inittab spec.services spec.agent))
    ∷ root_file (codes "etc/cnimbus-say") 0o755 (utf8 build_console_say_script)
    ∷ root_file (codes "etc/init.d/rcS") 0o755 (utf8 (build_rc_script is_ip spec))
    ∷ root_file (codes "etc/init.d/shutdown.sh") 0o755
        (utf8 (build_shutdown_script spec.services spec.stop_grace))
    ∷ root_file (codes "etc/hostname") 0o644 (utf8 (spec.hostname ++ 10 ∷ []))
    ∷ root_file (codes "etc/hosts") 0o644 (utf8 (build_hosts_file spec.hostname))
    ∷ root_file acpi_power_handler_path 0o644 []
    ∷ root_file (codes "etc/resolv.conf") 0o644 []
    ∷ root_file (codes "etc/passwd") 0o644 (utf8 (build_passwd spec.user))
    ∷ root_file (codes "etc/group") 0o644 (utf8 (build_group spec.user))
    ∷ (firewall_file (codes "etc/init.d/firewall.sh") spec.firewall spec.firewall_on_error false
        ++ (firewall_file (codes "etc/init.d/firewall6.sh") spec.firewall6 spec.firewall_on_error
              true
            ++ map root_entry normal))

-- The zeros that bring the image to a multiple of 64 KiB.
unfoldable pub root_padding : ℕ → ℕ
root_padding size = let rem = size % (64 * 1024) in if rem == 0 then 0 else 64 * 1024 - rem
