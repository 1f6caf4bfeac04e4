-- ===== src/Modbus/Tests.antt =====
-- Inputs of the Modbus part on which its theorems are applied, one module to a source file.
mod Frames
mod Requests
mod Serials
pub mod Data
