-- ===== src/Interp.antt =====
-- crates/ygg-interp/src/lib.rs: the bytecode interpreter. Interp/Api is the interface to the kernel,
-- Interp/Fetch the frame; the arms of the match stand in Interp/Data, /Numbers, /Binaries, /System
-- and /Run, which ends with the loop.
pub mod Api
pub mod Words
pub mod Fetch
pub mod Allocate
pub mod Data
pub mod Numbers
pub mod Binaries
pub mod System
pub mod Run
pub mod Hoare
pub mod Reads
pub mod Clean
pub mod Arms
pub mod Takes
pub mod Variable
pub mod Control
pub mod Round
pub mod Safety
mod Tests
