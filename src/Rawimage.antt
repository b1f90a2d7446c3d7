-- ===== src/Rawimage.antt =====
-- internal/rawimage/rawimage.go: the raw disk image, a GPT disk of two partitions.
pub mod Layout
pub mod Stream
pub mod Geometry
