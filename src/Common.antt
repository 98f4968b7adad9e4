-- ===== src/Common.antt =====
-- lib/common.c: helpers of all daemons.
pub mod NextLine
pub mod LineLoop
pub mod ConnPool
pub mod Accept
pub mod Strrepl
