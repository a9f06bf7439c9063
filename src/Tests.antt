-- ===== src/Tests.antt =====
-- The theorems of the library at concrete inputs.
mod Table
mod Wakes
mod Wire
mod Sockets
mod Sweeps
mod Calls
mod Drives
