-- ===== src/Scripts.antt =====
-- internal/rootfs/build.go: the texts of the scripts and tables that the guest runs at boot.
pub mod Shell
pub mod Reader
pub mod Words
pub mod LineBreaks
pub mod Spec
pub mod Inittab
pub mod Entries
pub mod Supervisor
pub mod Environment
pub mod Numerals
pub mod AgentScript
pub mod Headers
pub mod Firewall
pub mod Rules
pub mod Accounts
pub mod Shutdown
pub mod Fixed
pub mod Boot
