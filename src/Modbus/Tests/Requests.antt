-- ===== src/Modbus/Tests/Requests.antt =====
-- The theorems on modbus-request.ts at concrete requests.
use rpi_atmega324_modbus_gat.Prelude.{
  ℕ, ◌+◌, ◌*◌, ◌<◌, ◌≡◌, refl, true, false, some, [], ◌∷◌, arith, length,
}
use rpi_atmega324_modbus_gat.Prelude.Int.{pos}
use rpi_atmega324_modbus_gat.Prelude.Num.{num}
use rpi_atmega324_modbus_gat.Prelude.Result.{ok, throw}
use rpi_atmega324_modbus_gat.Modbus.Frame.{ModbusAsciiFrame}
use rpi_atmega324_modbus_gat.Modbus.Access.{byte_at, word_at}
use rpi_atmega324_modbus_gat.Modbus.Request.{
  ModbusRequest, new_request, illegal_arguments, to_bits, create_read_hold_register,
  create_write_hold_register, create_write_multiple_hold_registers, set_request_received,
  set_response,
}
use rpi_atmega324_modbus_gat.Modbus.Request.Factory.{
  Addressed, create_read_hold_register-layout, create_write_hold_register-layout,
}
use rpi_atmega324_modbus_gat.Modbus.Request.Multiple.{
  value_of, create_write_multiple_hold_registers-layout,
  create_write_multiple_hold_registers-refused,
}
use rpi_atmega324_modbus_gat.Modbus.Request.Lifecycle.{
  receive, respond, here, next, WellFormed, Reach-WellFormed, IsKept, Reach-IsKept,
}
use rpi_atmega324_modbus_gat.Modbus.Tests.Data.{print_byte, frame_0102, request_0102}

create_read_hold_register-layout_example :
    (x : ModbusAsciiFrame) × (create_read_hold_register print_byte 7
        (num (pos 1))
        (num (pos 40009))
        (num (pos 5))
        true
      ≡ ok (new_request x true))
    × Addressed x 1 3 40009
    × (length x.buffer ≡ 6)
    × (word_at x 4 ≡ num (pos 5))
create_read_hold_register-layout_example =
    create_read_hold_register-layout print_byte 7 1 40009 5 true (omega arith) (omega arith)
      (omega arith) (omega arith) (omega arith)

create_write_hold_register-layout_example :
    (x : ModbusAsciiFrame) × (create_write_hold_register print_byte 7
        (num (pos 1))
        (num (pos 43006))
        (num (pos 600))
        false
      ≡ ok (new_request x false))
    × Addressed x 1 6 43006
    × (length x.buffer ≡ 6)
    × (word_at x 4 ≡ num (pos 600))
create_write_hold_register-layout_example =
    create_write_hold_register-layout print_byte 7 1 43006 600 false (omega arith) (omega arith)
      (omega arith) (omega arith)

create_write_multiple_hold_registers-layout_example :
    (x : ModbusAsciiFrame) × (create_write_multiple_hold_registers print_byte 7
        (num (pos 1))
        (num (pos 43006))
        1
        (num (pos 64936) ∷ [])
        false
      ≡ ok (new_request x false))
    × Addressed x 1 16 43006
    × (length x.buffer ≡ 7 + 2 * 1)
    × (word_at x 4 ≡ num (pos 1))
    × (byte_at x 6 ≡ num (pos (2 * 1)))
    × ((i : ℕ)
        → i < 1
        → word_at x (7 + 2 * i) ≡ num (pos (to_bits (value_of (num (pos 64936) ∷ []) i))))
create_write_multiple_hold_registers-layout_example =
    create_write_multiple_hold_registers-layout print_byte 7 1 43006 1 (num (pos 64936) ∷ []) false
      (omega arith) (omega arith) (omega arith) (omega arith) (refl, tt)

not_writable : ¬ ((true ≡ false) × Unit {0})
not_writable h = cc (h.0)

create_write_multiple_hold_registers-refused_example :
    create_write_multiple_hold_registers print_byte 7
      (num (pos 1))
      (num (pos 43006))
      1
      (num (pos 0xffff) ∷ [])
      false
    ≡ throw illegal_arguments
create_write_multiple_hold_registers-refused_example =
    create_write_multiple_hold_registers-refused print_byte 7 (num (pos 1)) (num (pos 43006)) 1
      (num (pos 0xffff) ∷ []) false not_writable

-- The request with its echo, and with its response too.
abbrev with_echo : ModbusRequest
with_echo = record request_0102 { request_received = some frame_0102; request_received_at = some 8 }

abbrev with_both : ModbusRequest
with_both = record with_echo { response = some frame_0102; response_at = some 9 }

Reach-WellFormed_example : WellFormed with_both
unfolding new_request set_request_received set_response
Reach-WellFormed_example =
    Reach-WellFormed frame_0102 false with_both
      (next (next here (receive 8 frame_0102 {r' = with_echo} refl)) (respond 9 frame_0102 refl))

Reach-IsKept_example : IsKept with_echo with_both
unfolding set_response
Reach-IsKept_example = Reach-IsKept with_echo with_both (next here (respond 9 frame_0102 refl))
