-- ===== src/EgoHeater.antt =====
-- software/rpi/egoHeater/server: the earlier form of the Modbus code, which steers an electric heater.
pub mod Frame
pub mod Request
pub mod Serial
mod Tests
