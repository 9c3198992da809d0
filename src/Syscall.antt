-- ===== src/Syscall.antt =====
-- System calls: src/syscall.rs with src/syscall/process.rs and src/syscall/display.rs.
-- The naked `syscall_wrapper` is a list of instructions on a machine with 64-bit registers and a
-- memory of 64-bit words. What `call` runs is compiled code, a parameter: `Callee` has what the C
-- calling convention promises of it. `alloc` and `dealloc` are those of the global allocator.
pub mod Machine
pub mod Registers
pub mod Handler
pub mod Wrapper
mod Words
mod Returns
mod Tests
