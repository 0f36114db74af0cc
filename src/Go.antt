-- ===== src/Go.antt =====
-- The parts of Go and of its standard library that the program calls: strings as bytes, fixed
-- width integers, maps, results of calls that may panic, and reads from a file.
pub mod Strings
pub mod Spaces
pub mod Words
pub mod Run
pub mod Maps
pub mod Sort
pub mod Members
pub mod Buffers
pub mod Io
