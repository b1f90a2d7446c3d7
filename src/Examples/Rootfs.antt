-- ===== src/Examples/Rootfs.antt =====
-- Runs of the tree of files, its archive, and of the reader.
use mathlib.Core.List.{map}
use cnimbus.Common.{All, List, [], arith, ok, refl, ◌∷◌, ◌≡◌}
use cnimbus.Common.Text.{codes, eqt}
use cnimbus.Rootfs.Ancestors.{Addition, add_all, add_all-IsTree, dir_at, file_at, symlink_at}
use cnimbus.Rootfs.Archive.{IsWritable, member, read_archive-build_cpio}
use cnimbus.Rootfs.Cpio.{build_cpio}
use cnimbus.Rootfs.Tree.{IsTree, dir_entry, new_file_tree}
use cnimbus.Rootfs.Types.{TreeEntry, entry_file}
use cnimbus.Rootfs.Unpack.{read_archive}

abbrev etc_calls : List Addition
etc_calls =
    file_at (codes "/etc/init.d/rcS") 0o755 (codes "#!/bin/sh")
    ∷ dir_at (codes "etc")
    ∷ symlink_at (codes "bin/../sbin/init") (codes "../bin/busybox")
    ∷ []

add_all-IsTree_example : IsTree (add_all etc_calls new_file_tree)
add_all-IsTree_example = add_all-IsTree etc_calls

abbrev two_entries : List TreeEntry
two_entries =
    dir_entry (codes "etc")
    ∷ record {
      path = codes "etc/motd";
      kind = entry_file;
      perm = 0o644;
      content = codes "hi\n";
      link_target = [];
    }
    ∷ []

two_entries-IsWritable : All IsWritable two_entries
unfolding eqt
two_entries-IsWritable = (
  (omega arith, omega arith, omega arith, refl),
  ((omega arith, omega arith, omega arith, refl), tt),
)

read_archive-build_cpio_example :
    read_archive 3 (build_cpio two_entries) ≡ ok (map member two_entries)
read_archive-build_cpio_example =
    read_archive-build_cpio 3 two_entries (omega arith) two_entries-IsWritable
