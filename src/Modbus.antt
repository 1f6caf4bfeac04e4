-- ===== src/Modbus.antt =====
-- software/rpi/nibe1155/server/src/modbus: frames, requests and the serial queue.
pub mod Hex
pub mod Frame
pub mod Access
pub mod Request
pub mod Serial
pub mod Tests
