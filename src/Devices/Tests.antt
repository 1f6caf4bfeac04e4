-- ===== src/Devices/Tests.antt =====
-- Concrete runs of the device code.
mod Polls
mod Values
mod HeatPumps
mod Calls
