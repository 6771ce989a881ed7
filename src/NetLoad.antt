-- ===== src/NetLoad.antt =====
-- linux/nethogs/main.py: the network load generator.
pub mod Stats
pub mod Throttle
pub mod Internet
pub mod Lan
pub mod Fmt
pub mod Report
