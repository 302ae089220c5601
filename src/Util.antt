-- ===== src/Util.antt =====
-- internal/util: small helpers of the other packages.
pub mod Shell
pub mod Path
