-- ===== src/Nimbus.antt =====
-- internal/nimbusfile/nimbusfile.go: the manifest parser.
pub mod Types
pub mod Lines
pub mod Args
pub mod Checks
pub mod Forms
pub mod Directive
pub mod Settings
pub mod Lists
pub mod Agent
pub mod Copy
pub mod Parse
pub mod Valid
