-- ===== src/Tests.antt =====
-- Runs of the model and the theorems at concrete inputs.
mod Buffers
mod Calls
mod Compressed
mod Directory
mod Duplicates
mod Image
mod Indexes
mod Packing
mod Stored
mod Walk
