-- ===== src/Kernelinfo.antt =====
-- internal/kernelinfo/kernelinfo.go: a version of the kernel, symbolic or explicit, becomes the
-- address of a source archive and of its signature.
pub mod Release
pub mod Resolution
