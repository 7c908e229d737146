-- ===== src/Memory.antt =====
-- Physical memory and its pages: src/kernel/lib/memory.
pub mod Layout
pub mod Machine
pub mod Yields
pub mod Pages
pub mod Map
mod Tests
