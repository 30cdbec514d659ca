-- ===== src/Examples.antt =====
-- Runs of the code on concrete links, and the theorems applied to them. The messages are encoded by a
-- small codec of these tests.
pub mod Toy
mod Rpc
mod Cli
mod Firmware
mod Auto
mod Tools
mod Typed
pub mod Upstream
mod Flash
