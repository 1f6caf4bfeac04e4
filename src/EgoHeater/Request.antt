-- ===== src/EgoHeater/Request.antt =====
-- software/rpi/egoHeater/server/src/modbus/modbus-request.ts: the two factory methods. A request's `send`
-- does nothing there.
pub mod Agreement
use rpi_atmega324_modbus_gat.Prelude.{ℕ, ◌-◌, ◌/◌, ◌%◌, ◌||◌, Option, none, some, List, [], ◌∷◌}
use rpi_atmega324_modbus_gat.Prelude.Int.{pos}
use rpi_atmega324_modbus_gat.Prelude.Num.{Num, num, ltb_num}
use rpi_atmega324_modbus_gat.Prelude.Result.{Result, ok, throw, ◌>>◌, throw_if}
use rpi_atmega324_modbus_gat.Modbus.Frame.{ModbusAsciiFrame, of_buffer}
use rpi_atmega324_modbus_gat.Modbus.Request.{outside, to_bits, byte}
use rpi_atmega324_modbus_gat.EgoHeater.Frame.{new_frame}

pub data RequestFault : Type 0 where
  illegal_arguments : RequestFault

pub record ModbusRequest : Type 0 where
  pub request : ModbusAsciiFrame
  pub response : Option ModbusAsciiFrame
  pub sent_at : Option ℕ

-- `new ModbusRequest(new ModbusAsciiFrame(b))`.
unfoldable pub request_of_bytes : (ℕ → List ℕ) → ℕ → List ℕ → Result RequestFault ModbusRequest
unfolding new_frame
request_of_bytes fmt now b = elim (new_frame fmt now (of_buffer b)) [
  | none ↦ throw illegal_arguments
  | some f ↦ ok (record { request = f; response = none; sent_at = none })
]

module _ (fmt : ℕ → List ℕ) (now : ℕ) where
  unfoldable pub create_read_hold_register : Num → Num → Num → Result RequestFault ModbusRequest
  unfolding request_of_bytes
  create_read_hold_register dev addr quantity = do
    throw_if (ltb_num dev (num (pos 0)) || ltb_num (num (pos 255)) dev) illegal_arguments
    throw_if (outside (pos 1) (pos 0x10000) addr) illegal_arguments
    throw_if (outside (pos 1) (pos 0x7d) quantity) illegal_arguments
    let a = to_bits addr - 1
    request_of_bytes fmt now
        (byte (to_bits dev) ∷ 0x03 ∷ byte (a / 256) ∷ a % 256 ∷ 0 ∷ byte (to_bits quantity) ∷ [])

  unfoldable pub create_write_hold_register : Num → Num → Num → Result RequestFault ModbusRequest
  unfolding request_of_bytes
  create_write_hold_register dev addr value = do
    throw_if (ltb_num dev (num (pos 0)) || ltb_num (num (pos 255)) dev) illegal_arguments
    throw_if (outside (pos 1) (pos 0x10000) addr) illegal_arguments
    throw_if (outside (pos 0) (pos 0xffff) value) illegal_arguments
    let a = to_bits addr - 1
    let v = to_bits value
    request_of_bytes fmt now
        (byte (to_bits dev) ∷ 0x06 ∷ byte (a / 256) ∷ a % 256 ∷ byte (v / 256) ∷ v % 256 ∷ [])
