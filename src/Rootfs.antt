-- ===== src/Rootfs.antt =====
-- internal/rootfs: the tree of files that goes into an initramfs, and its cpio archive.
pub mod Types
pub mod Path
pub mod Tree
pub mod Ancestors
pub mod Cpio
pub mod Unpack
pub mod Archive
