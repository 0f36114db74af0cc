-- ===== src/Tests.antt =====
-- A sample binary on a sample host, runs of the program on them, and the theorems at such inputs.
mod Samples
mod Runs
mod Examples
mod Sections
mod Commands
mod Elfgens
mod Printers
