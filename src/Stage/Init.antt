-- ===== src/Stage/Init.antt =====
-- `buildStage1Init` of internal/rootfs/stage1.go: the script that finds the image's root, fills
-- its four directories of programs, and hands over to it.
use cnimbus.Common.{List, [], ◌++◌, ◌∷◌}
use cnimbus.Common.Number.{format_uint}
use cnimbus.Common.Text.{Text, codes}
use cnimbus.Scripts.Boot.Network.{console_say_cmd, uptime_checkpoint}
use cnimbus.Scripts.Shell.{concat, sh_quote, unlines}
use cnimbus.Scripts.Spec.{ExtraFile}
use cnimbus.Stage.Shadow.{exec_dirs, trim_leading_slash}

abbrev pub default_tmpfs_size : Text
default_tmpfs_size = codes "32m"

unfoldable pub identify_boot_image : Text → Text → List Text
unfolding concat
identify_boot_image iso_dir indent =
    concat (indent ∷ codes "CFG=" ∷ iso_dir ∷ codes "/CNIMBUS.CFG" ∷ [])
    ∷ concat (indent ∷ codes "[ -e \"$CFG\" ] || CFG=" ∷ iso_dir ∷ codes "/cnimbus.cfg" ∷ [])
    ∷ concat (indent ∷ codes "if [ -e \"$CFG\" ]; then" ∷ [])
    ∷ concat
        (indent ∷ codes "  " ∷ console_say_cmd ∷ codes " \"cnimbus: identified boot image:\"" ∷ [])
    ∷ concat (
        indent
        ∷ codes "  while read -r cfgline; do "
        ∷ console_say_cmd
        ∷ codes " \"cnimbus:   $cfgline\"; done < \"$CFG\""
        ∷ [])
    ∷ concat (indent ∷ codes "fi" ∷ [])
    ∷ []

-- `path` stands in a text that is quoted as a whole.
unfoldable pub staging_check : Text → Text → List Text
unfolding concat sh_quote
staging_check cmd path =
    concat (codes "if ! " ∷ cmd ∷ codes "; then" ∷ [])
    ∷ concat (
        codes "  echo "
        ∷ sh_quote (
            concat (
              codes "cnimbus: FATAL: could not stage "
              ∷ path
              ∷ codes " into its exec directory (tmpfs full? see TMPSIZE)"
              ∷ []))
        ∷ [])
    ∷ codes "  exit 1"
    ∷ codes "fi"
    ∷ []

unfoldable pub find_root_lines : List Text
unfolding concat identify_boot_image
find_root_lines =
    codes "#!/bin/sh"
    ∷ codes "mount -t proc proc /proc"
    ∷ codes "mount -t sysfs sysfs /sys"
    ∷ codes "mount -t devtmpfs devtmpfs /dev 2>/dev/null"
    ∷ codes "echo"
    ∷ concat (console_say_cmd ∷ codes " \"=== cnimbus: $(uname -s) $(uname -r) ===\"" ∷ [])
    ∷ codes "echo"
    ∷ codes "ROOT_MOUNTED=0"
    ∷ codes "for attempt in 1 2 3 4 5 6 7 8 9 10; do"
    ∷ codes "  for dev in /dev/sr0 /dev/sr1 /dev/vda /dev/vdb /dev/sda /dev/sdb; do"
    ∷ codes "    [ -e \"$dev\" ] || continue"
    ∷ codes "    mount -t iso9660 -o ro \"$dev\" /mnt/boot 2>/dev/null || continue"
    ∷ codes "    if [ -e /mnt/boot/SQUASHFS.IMG ] || [ -e /mnt/boot/squashfs.img ]; then break; fi"
    ∷ codes "    umount /mnt/boot 2>/dev/null"
    ∷ codes "  done"
    ∷ codes "  if mountpoint -q /mnt/boot; then"
    ∷ codes "    SQ=/mnt/boot/SQUASHFS.IMG"
    ∷ codes "    [ -e \"$SQ\" ] || SQ=/mnt/boot/squashfs.img"
    ∷ codes "    [ -e /dev/loop0 ] || mknod /dev/loop0 b 7 0"
    ∷ codes
        "    if losetup /dev/loop0 \"$SQ\" && mount -t squashfs -o ro /dev/loop0 /mnt/root; then"
    ∷ codes "      ROOT_MOUNTED=1"
    ∷ (identify_boot_image (codes "/mnt/boot") (codes "      ")
        ++ (codes "    fi"
            ∷ codes "  fi"
            ∷ codes "  if [ \"$ROOT_MOUNTED\" != 1 ]; then"
            ∷ codes
                "    for dev in /dev/vda2 /dev/vdb2 /dev/sda2 /dev/sdb2 /dev/xvda2 /dev/xvdb2 /dev/nvme0n1p2 /dev/nvme1n1p2; do"
            ∷ codes "      [ -e \"$dev\" ] || continue"
            ∷ codes
                "      if mount -t squashfs -o ro \"$dev\" /mnt/root 2>/dev/null; then ROOT_MOUNTED=1; break; fi"
            ∷ codes "    done"
            ∷ codes "  fi"
            ∷ []))

unfoldable pub scan_lines : List Text
unfolding identify_boot_image
scan_lines =
    codes "  if [ \"$ROOT_MOUNTED\" != 1 ]; then"
    ∷ codes "    for bd in /sys/block/*; do"
    ∷ codes "      dev=${bd##*/}"
    ∷ codes "      case \"$dev\" in loop*|ram*|sr*) continue;; esac"
    ∷ codes "      for part in \"$bd\" \"$bd\"/\"$dev\"*; do"
    ∷ codes "        [ -e \"$part\" ] || continue"
    ∷ codes "        pdev=${part##*/}"
    ∷ codes "        [ -e \"/dev/$pdev\" ] || continue"
    ∷ codes "        for fstype in vfat exfat; do"
    ∷ codes
        "          if [ \"$fstype\" = exfat ] && ! dd if=\"/dev/$pdev\" bs=1 skip=3 count=5 2>/dev/null | grep -q EXFAT; then continue; fi"
    ∷ codes
        "          mount -t \"$fstype\" -o ro \"/dev/$pdev\" /mnt/isoscan 2>/dev/null || continue"
    ∷ codes "          find /mnt/isoscan -maxdepth 3 -iname '*.iso' 2>/dev/null > /isocandidates"
    ∷ codes "          while read -r iso; do"
    ∷ codes "            [ -n \"$iso\" ] || continue"
    ∷ codes "            /bin/sh /etc/cnimbus-say \"cnimbus: checking candidate image: $iso\""
    ∷ codes "            [ -e /dev/loop1 ] || mknod /dev/loop1 b 7 1"
    ∷ codes
        "            if losetup /dev/loop1 \"$iso\" && mount -t iso9660 -o ro /dev/loop1 /mnt/boot 2>/dev/null; then"
    ∷ codes "              SQ=/mnt/boot/SQUASHFS.IMG"
    ∷ codes "              [ -e \"$SQ\" ] || SQ=/mnt/boot/squashfs.img"
    ∷ codes "              if [ -e \"$SQ\" ]; then"
    ∷ codes "                [ -e /dev/loop0 ] || mknod /dev/loop0 b 7 0"
    ∷ codes
        "                if losetup /dev/loop0 \"$SQ\" && mount -t squashfs -o ro /dev/loop0 /mnt/root; then"
    ∷ codes "                  ROOT_MOUNTED=1"
    ∷ (identify_boot_image (codes "/mnt/boot") (codes "                  ")
        ++ (codes "                fi"
            ∷ codes "              fi"
            ∷ codes "            fi"
            ∷ codes "            [ \"$ROOT_MOUNTED\" = 1 ] && break"
            ∷ codes "            umount /mnt/boot 2>/dev/null"
            ∷ codes "            losetup -d /dev/loop1 2>/dev/null"
            ∷ codes "          done < /isocandidates"
            ∷ codes "          rm -f /isocandidates"
            ∷ codes "          [ \"$ROOT_MOUNTED\" = 1 ] || umount /mnt/isoscan 2>/dev/null"
            ∷ codes "        done"
            ∷ codes "        [ \"$ROOT_MOUNTED\" = 1 ] && break"
            ∷ codes "      done"
            ∷ codes "      [ \"$ROOT_MOUNTED\" = 1 ] && break"
            ∷ codes "    done"
            ∷ codes "  fi"
            ∷ codes "  [ \"$ROOT_MOUNTED\" = 1 ] && break"
            ∷ codes
                "  [ \"$attempt\" = 1 ] && /bin/sh /etc/cnimbus-say \"cnimbus: boot device not found yet -- retrying for up to 10s (real USB/SATA hardware can take a few seconds to enumerate)\""
            ∷ codes "  sleep 1"
            ∷ codes "done"
            ∷ codes "if [ \"$ROOT_MOUNTED\" != 1 ]; then"
            ∷ codes
                "  /bin/sh /etc/cnimbus-say \"cnimbus: FATAL: could not find/mount the SquashFS root (tried the CD-ROM drive and common second-partition names, retried for 10s)\""
            ∷ codes "  exit 1"
            ∷ codes "fi"
            ∷ uptime_checkpoint (codes "root mounted, starting staging")
            ∷ []))

unfoldable pub tmpfs_mounts : Text → List Text → List Text
unfolding concat
tmpfs_mounts size [] = []
tmpfs_mounts size (d ∷ dirs) =
    concat (codes "mkdir -p /mnt/root/" ∷ d ∷ [])
    ∷ concat (
        codes "mount -t tmpfs -o mode=0755,nosuid,nodev,size="
        ∷ size
        ∷ codes " tmpfs /mnt/root/"
        ∷ d
        ∷ [])
    ∷ tmpfs_mounts size dirs

unfoldable pub applet_checks : List Text
unfolding staging_check
applet_checks =
    staging_check (codes "cp /bin/busybox /mnt/root/bin/busybox") (codes "/bin/busybox")
    ++ (staging_check (codes "chmod 755 /mnt/root/bin/busybox") (codes "/bin/busybox")
        ++ (staging_check (codes "chroot /mnt/root /bin/busybox --install -s")
              (codes "busybox applets")
            ++ staging_check (codes "[ -L /mnt/root/bin/sh ]")
                (codes "busybox applets (verifying /bin/sh exists)")))

unfoldable pub copy_command : ExtraFile → Text
unfolding concat sh_quote trim_leading_slash
copy_command f =
    let rel = trim_leading_slash f.path in
    concat (
      codes "cp "
      ∷ sh_quote (codes "/shadow/" ++ rel)
      ∷ codes " "
      ∷ sh_quote (codes "/mnt/root/" ++ rel)
      ∷ [])

unfoldable pub chmod_command : ExtraFile → Text
unfolding concat sh_quote trim_leading_slash format_uint
chmod_command f = concat (
    codes "chmod "
    ∷ format_uint 8 f.perm
    ∷ codes " "
    ∷ sh_quote (codes "/mnt/root/" ++ trim_leading_slash f.path)
    ∷ [])

unfoldable pub file_checks : List ExtraFile → List Text
unfolding staging_check copy_command chmod_command trim_leading_slash
file_checks [] = []
file_checks (f ∷ shadowed) =
    staging_check (copy_command f) (trim_leading_slash f.path)
    ++ (staging_check (chmod_command f) (trim_leading_slash f.path) ++ file_checks shadowed)

abbrev pub hand_over : List Text
hand_over =
    uptime_checkpoint (codes "staging complete, switching to real root")
    ∷ codes "exec switch_root /mnt/root /sbin/init"
    ∷ []

abbrev pub size_or_default : Text → Text
size_or_default [] = default_tmpfs_size
size_or_default (c ∷ s) = c ∷ s

-- Every line before the checks of the files.
unfoldable pub stage1_head : Text → List Text
unfolding find_root_lines scan_lines tmpfs_mounts applet_checks
stage1_head tmpfs_size =
    find_root_lines
    ++ (scan_lines ++ (tmpfs_mounts (size_or_default tmpfs_size) exec_dirs ++ applet_checks))

unfoldable pub build_stage1_init : List ExtraFile → Text → Text
unfolding unlines uptime_checkpoint stage1_head file_checks
build_stage1_init shadowed tmpfs_size =
    unlines (stage1_head tmpfs_size ++ (file_checks shadowed ++ hand_over))
