-- ===== src/Soar/Examples.antt =====
-- Concrete values for the tests of the SOAR modules.
pub mod Conditions
pub mod Graphs
pub mod Runs
