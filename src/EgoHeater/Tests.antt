-- ===== src/EgoHeater/Tests.antt =====
-- The theorems on the egoHeater's driver at concrete data.
use rpi_atmega324_modbus_gat.Prelude.{
  ℕ, ◌≡◌, refl, true, false, none, some, List, [], ◌∷◌, ◌++◌, arith, ltb, if◌then◌else◌,
}
use rpi_atmega324_modbus_gat.Prelude.Int.{pos}
use rpi_atmega324_modbus_gat.Prelude.Num.{num}
use rpi_atmega324_modbus_gat.Modbus.Hex.{hex_char, hex_value, is_hex, PrintsBytes}
use rpi_atmega324_modbus_gat.Modbus.Frame
use rpi_atmega324_modbus_gat.Modbus.Frame.{ModbusAsciiFrame, of_buffer, of_string}
use rpi_atmega324_modbus_gat.Modbus.Request
use rpi_atmega324_modbus_gat.Modbus.Serial.{null}
use rpi_atmega324_modbus_gat.Modbus.Tests.Data.{print_byte, frame_0102}
use rpi_atmega324_modbus_gat.EgoHeater.Frame.{new_frame, new_frame-agrees, zero_sum_refused}
use rpi_atmega324_modbus_gat.EgoHeater.Request.{
  create_read_hold_register, create_write_hold_register,
}
use rpi_atmega324_modbus_gat.EgoHeater.Request.Agreement.{SameRequest, create-SameRequest}
use rpi_atmega324_modbus_gat.EgoHeater.Serial.{Serial, resolves, handle_on_serial_data}
use rpi_atmega324_modbus_gat.EgoHeater.Serial.Exchange.{two_frames_resolve}
use rpi_atmega324_modbus_gat.EgoHeater.Serial.Blocked.{
  IsBlocked, received, written, open_called, after_all, after_all-IsBlocked,
}

-- A `%02X` that prints 256 with three digits.
abbrev print : ℕ → List ℕ
print b = if ltb b 256 then print_byte b else b'1' ∷ b'0' ∷ b'0' ∷ []

print-PrintsBytes : PrintsBytes print
print-PrintsBytes b h = ground arith

new_frame-agrees_example :
    new_frame print 7 (of_buffer (1 ∷ 2 ∷ [])) ≡ Frame.new_frame print 7 (of_buffer (1 ∷ 2 ∷ []))
new_frame-agrees_example = new_frame-agrees print 7 (of_buffer (1 ∷ 2 ∷ [])) (omega arith)

-- 1 and 255 add up to 256: ":01FF100".
abbrev zero_sum : ModbusAsciiFrame
zero_sum = record {
  at = 7;
  frame = b':' ∷ b'0' ∷ b'1' ∷ b'F' ∷ b'F' ∷ b'1' ∷ b'0' ∷ b'0' ∷ 13 ∷ 10 ∷ [];
  buffer = 1 ∷ 255 ∷ [];
  lrc_ok = true;
}

zero_sum_refused_example :
    (new_frame print 7 (of_string zero_sum.frame) ≡ none)
    × (Frame.new_frame print 7 (of_string zero_sum.frame) ≡ none)
unfolding new_frame hex_char
zero_sum_refused_example =
    zero_sum_refused print 7 (1 ∷ 255 ∷ []) zero_sum print-PrintsBytes refl (omega arith)
      (omega arith) refl

create-SameRequest_example :
    SameRequest (create_read_hold_register print 7 (num (pos 247)) (num (pos 8193)) (num (pos 1))) (
      Request.create_read_hold_register print 7
        (num (pos 247))
        (num (pos 8193))
        (num (pos 1))
        false)
    × SameRequest
        (create_write_hold_register print 7 (num (pos 247)) (num (pos 8193)) (num (pos 1)))
        (Request.create_write_hold_register print 7
          (num (pos 247))
          (num (pos 8193))
          (num (pos 1))
          false)
create-SameRequest_example =
    create-SameRequest print 7 (num (pos 247)) (num (pos 8193)) (num (pos 1)) false (omega arith)
      (omega arith)

abbrev waiting : Serial
waiting = record {
  has_port = true;
  open_promise = none;
  write_promise = some 3;
  frame = null;
  received_frames = [];
  effects = [];
}

two_frames_resolve_example :
    handle_on_serial_data print 7 (frame_0102.frame ++ frame_0102.frame) waiting
    ≡ record waiting { write_promise = none; effects = resolves 3 frame_0102 ∷ [] }
unfolding new_frame hex_value hex_char is_hex
two_frames_resolve_example =
    two_frames_resolve print 7 3 frame_0102.frame frame_0102.frame frame_0102 frame_0102 waiting
      refl refl refl refl

-- Two more frames in the chunk of the response stay behind.
abbrev four_frames : List ℕ
four_frames = frame_0102.frame ++ (frame_0102.frame ++ (frame_0102.frame ++ frame_0102.frame))

left_behind :
    (handle_on_serial_data print 7 four_frames waiting).received_frames
    ≡ frame_0102 ∷ frame_0102 ∷ []
unfolding handle_on_serial_data new_frame hex_value hex_char is_hex
left_behind = refl

abbrev blocked : Serial
blocked = record waiting { received_frames = frame_0102 ∷ frame_0102 ∷ [] }

after_all-IsBlocked_example :
    IsBlocked 3
      (after_all print (received 8 four_frames ∷ written frame_0102 4 ∷ open_called 5 ∷ []) blocked)
after_all-IsBlocked_example =
    after_all-IsBlocked print 3 (received 8 four_frames ∷ written frame_0102 4 ∷ open_called 5 ∷ [])
      blocked (refl, omega arith)
