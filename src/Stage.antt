-- ===== src/Stage.antt =====
-- internal/rootfs/frompieces.go and stage1.go: which files go into the first stage of the boot,
-- whether they fit, and the script that puts them in place.
pub mod Shadow
pub mod Tmpfs
pub mod Placed
pub mod Fits
pub mod Init
pub mod Staged
pub mod Order
pub mod Build
pub mod Secrets
pub mod Root
pub mod Mounts
