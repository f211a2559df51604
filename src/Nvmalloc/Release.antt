-- ===== src/Nvmalloc/Release.antt =====
-- A waiting block becomes free: `extendFreeLocation` and `insertFreeLocation` on a row of blocks.
pub mod Words
pub mod Freed
pub mod Halves
pub mod Insert
pub mod Outcome
pub mod Sides
pub mod Row
