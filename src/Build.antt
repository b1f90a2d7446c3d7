-- ===== src/Build.antt =====
-- cmd/cnimbus/build.go: from an accepted manifest to what the image is built from.
pub mod Spec
pub mod Copies
pub mod Composed
