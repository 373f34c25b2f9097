-- ===== src/Tests.antt =====
-- Runs of the model on concrete inputs, and the theorems applied to some.
mod Codec
mod Dicts
mod Store
mod Zsets
mod Session
mod Channels
mod Snapshots
mod Output
