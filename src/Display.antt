-- ===== src/Display.antt =====
-- The texts that the programs print: errors and the data of events.
pub mod Failure
pub mod Data
