-- ===== src/Tests.antt =====
-- The development's theorems at concrete inputs.
mod Codec
mod Buffers
mod Sites
mod Files
mod Calls
mod Reading
mod Background
mod Text
mod Threads
mod Through
