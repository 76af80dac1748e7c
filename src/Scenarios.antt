-- ===== src/Scenarios.antt =====
-- Runs of the model, and the theorems at concrete inputs.
pub mod Linux
pub mod Children
mod Numbers
pub mod Lives
mod Shutdowns
mod Starts
