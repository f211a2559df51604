-- ===== src/Buddy.antt =====
-- inc/buddy/buddy.c: the buddy allocator over pages.
pub mod Size
pub mod State
pub mod Create
pub mod Alloc
pub mod Free
pub mod Tree
pub mod Inside
pub mod Repr
pub mod Session
pub mod Roundtrip
pub mod Dump
mod Tests
