-- ===== src/Devices.antt =====
-- The heat pump's registers, their values, the polling of them and the state machine that steers the
-- pump.
mod Tests
pub mod Registers
pub mod Value
pub mod Nibe1155
pub mod HeatPump
pub mod Actions
