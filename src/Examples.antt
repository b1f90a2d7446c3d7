-- ===== src/Examples.antt =====
-- Tests of the definitions, and each theorem applied at a concrete input.
mod Manifest
mod Images
mod Iso
mod Signing
mod Rootfs
mod Kernel
mod Pieces
mod Kvserve
mod Scripts
mod Stage
mod Guest
