-- ===== src/Modbus/Tests/Data.antt =====
-- Test data for frames, requests and the serial queue.
use rpi_atmega324_modbus_gat.Prelude.{ℕ, ◌/◌, ◌%◌, refl, true, false, none, some, List, [], ◌∷◌}
use rpi_atmega324_modbus_gat.Modbus.Hex.{hex_char, PrintsBytes}
use rpi_atmega324_modbus_gat.Modbus.Frame.{ModbusAsciiFrame}
use rpi_atmega324_modbus_gat.Modbus.Request.{ModbusRequest}
use rpi_atmega324_modbus_gat.Modbus.Serial.{Serial, null}

-- A `%02X` for bytes.
abbrev pub print_byte : ℕ → List ℕ
print_byte b = hex_char (b / 16) ∷ hex_char (b % 16) ∷ []

pub print_byte-PrintsBytes : PrintsBytes print_byte
print_byte-PrintsBytes b h = refl

-- ":010304D2" in front of its check byte, and a whole frame, ":0102FD" with its line end.
abbrev pub three_bytes : List ℕ
three_bytes = 1 ∷ 3 ∷ 210 ∷ []

abbrev pub frame_0102 : ModbusAsciiFrame
frame_0102 = record {
  at = 7;
  frame = b':' ∷ b'0' ∷ b'1' ∷ b'0' ∷ b'2' ∷ b'F' ∷ b'D' ∷ 13 ∷ 10 ∷ [];
  buffer = 1 ∷ 2 ∷ [];
  lrc_ok = true;
}

abbrev pub request_0102 : ModbusRequest
request_0102 = record {
  request = frame_0102;
  request_received = none;
  response = none;
  sent_at = none;
  request_received_at = none;
  response_at = none;
  error = none;
  is_log_set_register = false;
}

-- Two requests, the first one written.
abbrev pub two_pending : Serial
two_pending = record {
  serial_port = true;
  open_promise = false;
  frame = null;
  memory = λ i. record { requ = request_0102; timer = some 3100; timer_modbus = none };
  next = 2;
  pending = 0 ∷ 1 ∷ [];
  effects = [];
}
