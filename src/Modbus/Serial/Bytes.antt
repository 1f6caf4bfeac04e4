-- ===== src/Modbus/Serial/Bytes.antt =====
-- modbus-serial.ts, handleOnSerialData: how the bytes that arrive become frames, and what a frame does to the request at the head of the queue.
use rpi_atmega324_modbus_gat.Prelude.{
  ℕ, Bool, not, ◌||◌, Option, none, some, List, [], ◌∷◌, ◌++◌, ◌==◌, if◌then◌else◌,
}
use rpi_atmega324_modbus_gat.Modbus.Frame.{ModbusAsciiFrame, of_string, new_frame}
use rpi_atmega324_modbus_gat.Modbus.Request.{
  request_fails, of_request, lrc_error, ModbusRequestError, is_set, set_request_received,
  set_response, set_error,
}
use rpi_atmega324_modbus_gat.Modbus.Serial.{
  FrameText, M, attempt, clear_timers, emit, get, modify, null, raise, rejects, resolves, skip,
  splice_pending, text, type_error, undefined, with_request, write_head, ◌>>=◌, ◌>>◌,
}

-- The text that `+=` makes of the field's value.
abbrev pub codes_of : FrameText → List ℕ
codes_of undefined = b'u' ∷ b'n' ∷ b'd' ∷ b'e' ∷ b'f' ∷ b'i' ∷ b'n' ∷ b'e' ∷ b'd' ∷ []
codes_of null = b'n' ∷ b'u' ∷ b'l' ∷ b'l' ∷ []
codes_of (text x) = x

abbrev pub set_frame : FrameText → M (Unit {0})
set_frame x = modify (λ s. record s { frame = x })

abbrev pub lrc_failure : ℕ → ModbusRequestError
lrc_failure i = record { message = request_fails; request = of_request i; cause = lrc_error }

-- From `if (err || r.requ.response)` on, for the request at the head.
unfoldable pub finish : ℕ → Bool → M (Unit {0})
unfolding write_head
finish i failed = do
  splice_pending
  clear_timers i
  if failed
      then (do with_request i (set_error (lrc_failure i)); emit (rejects i (lrc_failure i)))
      else emit (resolves i)
  write_head

-- A frame for the request at the head: its echo, or its response.
unfoldable pub receive_frame : ℕ → ℕ → ModbusAsciiFrame → M (Unit {0})
unfolding finish
receive_frame now i f = do
  s ← get
  if is_set (s.memory i).requ.request_received_at
      then with_request i (set_response now f)
      else attempt (with_request i (set_request_received now f))
  t ← get
  if not f.lrc_ok || is_set (t.memory i).requ.response then finish i (not f.lrc_ok) else skip

abbrev pub for_head : (ℕ → M (Unit {0})) → List ℕ → M (Unit {0})
for_head f [] = raise type_error
for_head f (i ∷ rest) = f i

-- The end of a frame. The `catch` that should keep the constructor's error assigns `err` to itself, so
-- `f.lrcOk` is read of undefined; so is `r.requ` when no request is left.
unfoldable pub end_frame : ℕ → Option ModbusAsciiFrame → M (Unit {0})
unfolding receive_frame
end_frame now none = do set_frame null; raise type_error
end_frame now (some f) = do set_frame null; s ← get; for_head (λ i. receive_frame now i f) s.pending

module _ (fmt : ℕ → List ℕ) (now : ℕ) where
  unfoldable pub handle_byte : ℕ → M (Unit {0})
  unfolding end_frame
  handle_byte b s =
      if b == b':'
      then set_frame (text (b':' ∷ [])) s
      else (if not (b == 10)
          then set_frame (text (codes_of s.frame ++ b ∷ [])) s
          else end_frame now (new_frame fmt now (of_string (codes_of s.frame ++ b ∷ []))) s)

  unfoldable pub handle_bytes : List ℕ → M (Unit {0})
  unfolding handle_byte
  handle_bytes [] = skip
  handle_bytes (b ∷ bs) = do handle_byte b; handle_bytes bs

  abbrev pub unless_empty : List ℕ → M (Unit {0}) → M (Unit {0})
  unless_empty [] m = skip
  unless_empty (i ∷ rest) m = m

  -- Bytes that arrive while no request is pending are dropped.
  unfoldable pub handle_on_serial_data : List ℕ → M (Unit {0})
  unfolding handle_bytes
  handle_on_serial_data bytes s = unless_empty s.pending (handle_bytes bytes) s
