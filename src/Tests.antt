-- ===== src/Tests.antt =====
-- Runs on a small crate, and the theorems at concrete inputs.
mod Sample
mod Facts
mod Collecting
mod Ending
mod Assembling
mod Drawing
mod Installing
mod Linking
mod Rendering
mod Driving
mod Nesting
