-- ===== src/Boot.antt =====
-- The start of the kernel: what the bootloader hands over, src/kernel/bootloader.c and stivale2.c,
-- and pageframe_init of src/kernel/memory/pageframe.c, which reads it.
pub mod Pageframes
pub mod Measure
pub mod Ready
pub mod Steps
pub mod Stivale2
pub mod Tags
pub mod Setup
mod Tests
