-- ===== src/Require.antt =====
-- The module system of require.c: paths, the resolution of specs, and the memo of resolutions.
pub mod Path
pub mod Resolve
pub mod Memo
pub mod Load
