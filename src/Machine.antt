-- ===== src/Machine.antt =====
-- The state of the daemon and the monad of its functions: what a run of C code may end in.
pub mod Run
pub mod Ensures
pub mod Cfu
pub mod System
pub mod World
pub mod Moves
