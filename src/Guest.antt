-- ===== src/Guest.antt =====
-- cmd/cnimbusagent: the program in the guest that fetches values from its host.
pub mod Headers
pub mod Backdoor
pub mod Host
pub mod Payload
pub mod Exchange
pub mod Files
pub mod Runtime
pub mod Atomic
pub mod Whole
