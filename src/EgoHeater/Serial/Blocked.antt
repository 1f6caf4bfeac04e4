-- ===== src/EgoHeater/Serial/Blocked.antt =====
-- Frames that arrive in one chunk behind a response stay in `_receivedFrames` of the egoHeater's driver, and
-- two of them are enough to keep every later request from being settled.
use rpi_atmega324_modbus_gat.Prelude.{
  ℕ, ◌≤◌, ◌≡◌, ap, inl, inr, Bool, false, Option, none, some, List, [], ◌∷◌, ◌++◌, arith, ◌==◌,
  length, length-append, Bool-cases,
}
use rpi_atmega324_modbus_gat.Modbus.Frame.{ModbusAsciiFrame, of_string}
use rpi_atmega324_modbus_gat.EgoHeater.Frame.{new_frame}
use rpi_atmega324_modbus_gat.Modbus.Serial.Bytes.{codes_of}
use rpi_atmega324_modbus_gat.EgoHeater.Serial.{
  Serial, open_port, open_done, write, end_frame, handle_byte, handle_bytes, handle_on_serial_data,
  is_set,
}

-- The promise `p` waits, and two or more frames have stayed behind.
abbrev pub IsBlocked : ℕ → Serial → Type 0
IsBlocked p s = (s.write_promise ≡ some p) × (2 ≤ length s.received_frames)

end_frame-IsBlocked :
    (p : ℕ) (o : Option ModbusAsciiFrame) (s : Serial) → IsBlocked p s → IsBlocked p (end_frame o s)
unfolding end_frame
end_frame-IsBlocked p none s h = h
end_frame-IsBlocked p (some f) s (w, l) =
    let n : (length (s.received_frames ++ f ∷ []) == 2) ≡ false =
      ground (arith, length-append s.received_frames (f ∷ [])) in
    rw n (w, omega (arith, length-append s.received_frames (f ∷ [])))

-- What can happen to the driver: bytes at a time, a call of write or open, and the port's answer to an open.
pub data Event : Type 0 where
  received : ℕ → List ℕ → Event
  written : ModbusAsciiFrame → ℕ → Event
  open_called : ℕ → Event
  open_answered : Bool → Event

module _ (fmt : ℕ → List ℕ) where
  abbrev pub after : Event → Serial → Serial
  after (received now bytes) s = handle_on_serial_data fmt now bytes s
  after (written f q) s = (write f q s).1
  after (open_called q) s = (open_port q s).1
  after (open_answered failed) s = open_done failed s

  abbrev pub after_all : List Event → Serial → Serial
  after_all [] s = s
  after_all (e ∷ es) s = after_all es (after e s)

  handle_byte-IsBlocked :
      (now p c : ℕ) (s : Serial) → IsBlocked p s → IsBlocked p (handle_byte fmt now c s)
  unfolding handle_byte
  handle_byte-IsBlocked now p c s h = elim (Bool-cases (c == b':')) [
    | inl colon ↦ rw colon h
    | inr other ↦ (elim (Bool-cases (c == 10)) [
      | inl line_feed ↦
          rw (other, line_feed)
            (end_frame-IsBlocked p (new_frame fmt now (of_string (codes_of s.frame ++ c ∷ []))) s h)
      | inr plain ↦ rw (other, plain) h
    ])
  ]

  handle_bytes-IsBlocked :
      (now p : ℕ) (cs : List ℕ) (s : Serial)
      → IsBlocked p s
      → IsBlocked p (handle_bytes fmt now cs s)
  unfolding handle_bytes
  handle_bytes-IsBlocked now p [] s h = h
  handle_bytes-IsBlocked now p (c ∷ cs) s h =
      handle_bytes-IsBlocked now p cs (handle_byte fmt now c s) (handle_byte-IsBlocked now p c s h)

  after-IsBlocked : (p : ℕ) (e : Event) (s : Serial) → IsBlocked p s → IsBlocked p (after e s)
  unfolding handle_on_serial_data write open_port open_done
  after-IsBlocked p (received now bytes) s (w, l) =
      rw (ap is_set w) (handle_bytes-IsBlocked now p bytes s (w, l))
  after-IsBlocked p (written f q) s (w, l) = ground arith
  after-IsBlocked p (open_called q) s (w, l) = ground arith
  after-IsBlocked p (open_answered failed) s (w, l) = ground arith

  -- A request whose promise waits while two or more frames have stayed behind is never settled: whatever
  -- bytes arrive, and whatever is written or opened, its promise still waits and the frames stay.
  pub after_all-IsBlocked :
      (p : ℕ) (es : List Event) (s : Serial) → IsBlocked p s → IsBlocked p (after_all es s)
  after_all-IsBlocked p [] s h = h
  after_all-IsBlocked p (e ∷ es) s h =
      after_all-IsBlocked p es (after e s) (after-IsBlocked p e s h)
