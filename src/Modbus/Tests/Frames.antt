-- ===== src/Modbus/Tests/Frames.antt =====
-- The theorems on modbus-ascii-frame.ts at concrete frames.
use rpi_atmega324_modbus_gat.Prelude.{ℕ, ◌≡◌, refl, false, some, [], ◌∷◌, arith}
use rpi_atmega324_modbus_gat.Modbus.Hex.{hex_value, hex_char, is_hex}
use rpi_atmega324_modbus_gat.Modbus.Frame.{
  ModbusAsciiFrame, of_buffer, of_string, new_frame, lrc_check, lrc_from,
}
use rpi_atmega324_modbus_gat.Modbus.Frame.Text.{frame_text}
use rpi_atmega324_modbus_gat.Modbus.Frame.Laws.{ParsedFrom, new_frame-ParsedFrom}
use rpi_atmega324_modbus_gat.Modbus.Frame.RoundTrip.{
  decode-encode, encode-decode, changed_byte_detected,
}
use rpi_atmega324_modbus_gat.Modbus.Tests.Data.{
  print_byte, print_byte-PrintsBytes, three_bytes, frame_0102,
}

decode-encode_example :
    new_frame print_byte 9 (of_string frame_0102.frame) ≡ some (record frame_0102 { at = 9 })
unfolding new_frame hex_value hex_char is_hex
decode-encode_example =
    decode-encode print_byte 7 9 (1 ∷ 2 ∷ []) frame_0102 print_byte-PrintsBytes (omega arith) refl

encode-decode_example :
    new_frame print_byte 9 (of_buffer (1 ∷ 2 ∷ [])) ≡ some (record frame_0102 { at = 9 })
unfolding new_frame hex_value hex_char is_hex
encode-decode_example =
    encode-decode print_byte 7 9 frame_0102.frame frame_0102 print_byte-PrintsBytes refl refl

new_frame-ParsedFrom_example : (c : ℕ) × ParsedFrom frame_0102.frame frame_0102 c
unfolding new_frame hex_value hex_char is_hex
new_frame-ParsedFrom_example = new_frame-ParsedFrom print_byte 7 frame_0102.frame frame_0102 refl

-- The second of three bytes is 4 in place of 3.
abbrev changed : ModbusAsciiFrame
unfolding lrc_check lrc_from
changed = record {
  at = 9;
  frame = frame_text (1 ∷ 4 ∷ 210 ∷ []) 42;
  buffer = 1 ∷ 4 ∷ 210 ∷ [];
  lrc_ok = false;
}

changed_byte_detected_example : changed.lrc_ok ≡ false
unfolding new_frame hex_value hex_char is_hex
changed_byte_detected_example =
    changed_byte_detected print_byte 9 1 4 3 three_bytes changed (omega arith) (omega arith) refl
      (omega arith) (omega arith) refl
