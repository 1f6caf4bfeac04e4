-- ===== src/EgoHeater/Serial.antt =====
-- software/rpi/egoHeater/server/src/modbus/modbus-serial.ts: one request at a time, settled by the second
-- frame that arrives after it was written. A promise is named by a number; what the driver does to the
-- outside is recorded, the latest first. The checks of the configuration and log output are left out.
pub mod Exchange
pub mod Blocked
use rpi_atmega324_modbus_gat.Prelude.{
  ℕ, Bool, true, false, not, ◌||◌, Option, none, some, List, [], ◌∷◌, ◌++◌, ◌==◌, if◌then◌else◌,
  length,
}
use rpi_atmega324_modbus_gat.Prelude.Result.{Result, ok, throw}
use rpi_atmega324_modbus_gat.Modbus.Frame.{ModbusAsciiFrame, of_string}
use rpi_atmega324_modbus_gat.Modbus.Serial.{FrameText, null, text}
use rpi_atmega324_modbus_gat.Modbus.Serial.Bytes.{codes_of}
use rpi_atmega324_modbus_gat.EgoHeater.Frame.{new_frame}

pub data Fault : Type 0 where
  open_already_called not_open request_pending : Fault

pub data Effect : Type 0 where
  opens : ℕ → Effect
  opened open_failed : ℕ → Effect
  writes : List ℕ → Effect
  resolves : ℕ → ModbusAsciiFrame → Effect

-- `has_port` says whether `_serialPort` is set.
pub record Serial : Type 0 where
  pub has_port : Bool
  pub open_promise : Option ℕ
  pub write_promise : Option ℕ
  pub frame : FrameText
  pub received_frames : List ModbusAsciiFrame
  pub effects : List Effect

abbrev pub is_set {ℓ} : {A : Type ℓ} → Option A → Bool
is_set none = false
is_set (some a) = true

-- open, whose promise is `p`.
unfoldable pub open_port : ℕ → Serial → Result Fault (Unit {0}) × Serial
open_port p s =
    if is_set s.open_promise
    then (throw open_already_called, s)
    else (ok tt, record s { has_port = true; open_promise = some p; effects = opens p ∷ s.effects })

abbrev open_effect : Bool → ℕ → Effect
open_effect failed p = if failed then open_failed p else opened p

abbrev settle_open : Bool → Option ℕ → Serial → Serial
settle_open failed none s = s
settle_open failed (some p) s = record s {
  open_promise = none;
  effects = open_effect failed p ∷ s.effects;
}

-- The callback of `this._serialPort.open`.
unfoldable pub open_done : Bool → Serial → Serial
open_done failed s = settle_open failed s.open_promise s

-- write, whose promise is `p`.
unfoldable pub write : ModbusAsciiFrame → ℕ → Serial → Result Fault (Unit {0}) × Serial
write request p s =
    if not s.has_port || is_set s.open_promise
    then (throw not_open, s)
    else (if is_set s.write_promise then (throw request_pending, s) else (
      ok tt,
      record s { write_promise = some p; effects = writes request.frame ∷ s.effects },
    ))

abbrev resolve_with : Option ModbusAsciiFrame → Option ℕ → Serial → Serial
resolve_with none p s = s
resolve_with (some f) none s = s
resolve_with (some f) (some p) s = record s {
  write_promise = none;
  received_frames = [];
  effects = resolves p f ∷ s.effects;
}

abbrev second : List ModbusAsciiFrame → Option ModbusAsciiFrame
second [] = none
second (e ∷ []) = none
second (e ∷ f ∷ fs) = some f

-- The body of the try; a text that is no frame is only logged.
unfoldable pub end_frame : Option ModbusAsciiFrame → Serial → Serial
end_frame none s = record s { frame = null }
end_frame (some f) s =
    let frames = s.received_frames ++ f ∷ [] in
    let pushed : Serial = record s { frame = null; received_frames = frames } in
    if length frames == 2 then resolve_with (second frames) s.write_promise pushed else pushed

module _ (fmt : ℕ → List ℕ) (now : ℕ) where
  unfoldable pub handle_byte : ℕ → Serial → Serial
  unfolding end_frame new_frame
  handle_byte c s =
      if c == b':'
      then record s { frame = text (b':' ∷ []) }
      else (if c == 10
          then end_frame (new_frame fmt now (of_string (codes_of s.frame ++ c ∷ []))) s
          else record s { frame = text (codes_of s.frame ++ c ∷ []) })

  unfoldable pub handle_bytes : List ℕ → Serial → Serial
  unfolding handle_byte
  handle_bytes [] s = s
  handle_bytes (c ∷ cs) s = handle_bytes cs (handle_byte c s)

  -- handleOnSerialData on a Buffer.
  unfoldable pub handle_on_serial_data : List ℕ → Serial → Serial
  unfolding handle_bytes
  handle_on_serial_data bytes s = if is_set s.write_promise then handle_bytes bytes s else s
