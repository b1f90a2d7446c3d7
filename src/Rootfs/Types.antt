-- ===== src/Rootfs/Types.antt =====
-- The entries of internal/rootfs/tree.go. A path, and the target of a link, are their bytes.
use cnimbus.Common.{ℕ}
use cnimbus.Common.Bytes.{Bytes}

pub data EntryKind : Type 0 where
  entry_dir entry_file entry_symlink : EntryKind

pub record TreeEntry : Type 0 where
  pub path : Bytes
  pub kind : EntryKind
  pub perm : ℕ
  pub content : Bytes
  pub link_target : Bytes
