-- ===== src/Util.antt =====
-- util.c: strict integer parsing and the glob matcher of KEYS.
pub mod Number
pub mod Glob
