-- ===== src/Dict/Laws.antt =====
-- dict.c: the invariant of a dictionary, the map that it stands for, and what its operations do.
pub mod Table
pub mod Resize
pub mod Valid
pub mod Ops
pub mod Buckets
