-- ===== src/Modbus/Tests/Serials.antt =====
-- The theorems on modbus-serial.ts at a queue of two requests.
use rpi_atmega324_modbus_gat.Prelude.{ℕ, ◌≡◌, refl, ◌≢◌, true, false, [], ◌∷◌, ◌++◌, arith}
use rpi_atmega324_modbus_gat.Prelude.Result.{ok, throw}
use rpi_atmega324_modbus_gat.Modbus.Hex.{hex_value, hex_char, is_hex}
use rpi_atmega324_modbus_gat.Modbus.Frame.{new_frame}
use rpi_atmega324_modbus_gat.Modbus.Request.{error_already_set}
use rpi_atmega324_modbus_gat.Modbus.Serial.{
  Serial, null, type_error, request_fault, writes, rejects, timeout_error, handle_timeout,
}
use rpi_atmega324_modbus_gat.Modbus.Serial.Bytes.{handle_on_serial_data}
use rpi_atmega324_modbus_gat.Modbus.Serial.Timeouts.{
  timed_out, announce, handle_timeout_lem, waiting_timeout, handle_timeout_again,
}
use rpi_atmega324_modbus_gat.Modbus.Serial.Exchange.{broken_frame, echoed, Settled, exchange}
use rpi_atmega324_modbus_gat.Modbus.Serial.Queue.{IsOrdered, timeout_event, Event-IsOrdered}
use rpi_atmega324_modbus_gat.Modbus.Tests.Data.{print_byte, frame_0102, two_pending}

handle_timeout_lem_example :
    let (r, t) = handle_timeout 0 true two_pending in
    (r ≡ ok tt)
    × (t.pending ≡ 1 ∷ [])
    × (t.memory 0 ≡ timed_out 0 true (two_pending.memory 0))
    × ((j : ℕ) → j ≢ 0 → t.memory j ≡ two_pending.memory j)
    × (t.effects ≡ announce (1 ∷ []) (rejects 0 (timeout_error 0 true) ∷ []))
handle_timeout_lem_example = handle_timeout_lem 0 0 (1 ∷ []) true two_pending refl refl

waiting_timeout_example :
    let t = (handle_timeout 1 false two_pending).1 in
    let u = (handle_timeout 0 true t).1 in
    (t.pending ≡ 1 ∷ [])
    × (t.memory 0 ≡ two_pending.memory 0)
    × (t.effects ≡ writes 1 ∷ rejects 1 (timeout_error 1 false) ∷ [])
    × (u.pending ≡ [])
    × (u.effects
        ≡ rejects 0 (timeout_error 0 true) ∷ writes 1 ∷ rejects 1 (timeout_error 1 false) ∷ [])
waiting_timeout_example = waiting_timeout 0 1 two_pending refl (omega arith) refl refl

-- The first request has failed before.
abbrev failed_before : Serial
failed_before = record two_pending { memory = λ i. timed_out 0 true (two_pending.memory i) }

handle_timeout_again_example :
    let (r, t) = handle_timeout 0 true failed_before in
    (r ≡ throw (request_fault error_already_set)) × (t.pending ≡ 1 ∷ []) × (t.effects ≡ [])
handle_timeout_again_example = handle_timeout_again 0 true failed_before refl

exchange_example :
    Settled 7 0 frame_0102
      (1 ∷ [])
      (echoed 7 0 frame_0102 two_pending)
      (handle_on_serial_data print_byte 7 (frame_0102.frame ++ frame_0102.frame) two_pending)
unfolding new_frame hex_value hex_char is_hex
exchange_example =
    exchange print_byte 7 0 (1 ∷ []) frame_0102.frame frame_0102.frame frame_0102 frame_0102
      two_pending refl (refl, refl, refl, refl) refl refl refl refl

-- The line ":0x", then the frame.
broken_frame_example :
    let (r, t) =
      handle_on_serial_data print_byte 7
        ((b':' ∷ b'0' ∷ b'x' ∷ 10 ∷ []) ++ frame_0102.frame)
        two_pending in
    (r ≡ throw type_error)
    × (t ≡ record two_pending { frame = null })
    × Settled 7 0 frame_0102
        (1 ∷ [])
        (echoed 7 0 frame_0102 two_pending)
        (handle_on_serial_data print_byte 7 (frame_0102.frame ++ frame_0102.frame) t)
unfolding new_frame hex_value hex_char is_hex
broken_frame_example =
    broken_frame print_byte 7 0 (1 ∷ []) (b'0' ∷ b'x' ∷ []) frame_0102.frame frame_0102.frame
      frame_0102.frame frame_0102 frame_0102 two_pending (omega arith) refl refl
      (refl, refl, refl, refl) refl refl refl refl

Event-IsOrdered_example : IsOrdered (handle_timeout 1 false two_pending).1
Event-IsOrdered_example = Event-IsOrdered print_byte 8 (timeout_event 1 false) (omega arith)
