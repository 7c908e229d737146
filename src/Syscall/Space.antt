-- ===== src/Syscall/Space.antt =====
-- Sharing a whole address space: the loops of sys_fork in kernel/syscall.c.
pub mod Page
pub mod Digits
pub mod Loops
pub mod Fork
pub mod Call
pub mod New
