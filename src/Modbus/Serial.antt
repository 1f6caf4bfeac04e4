-- ===== src/Modbus/Serial.antt =====
-- modbus-serial.ts, the class ModbusSerial: the queue of pending requests, their timers, and the port; Bytes has
-- the frames that arrive byte by byte. An IPendingRequest is shared between the queue and the callbacks of its
-- timers, so the requests stand in a memory, and queue and callbacks hold their places in it.
pub mod Bytes
pub mod Stream
pub mod Exchange
pub mod Timeouts
pub mod Queue
use rpi_atmega324_modbus_gat.Prelude.{
  ℕ, zero, suc, ◌+◌, Bool, true, false, not, ◌||◌, Option, none, some, List, [], ◌∷◌, ◌++◌, arith,
  ltb, ◌==◌, if◌then◌else◌, length, set, drop,
}
use rpi_atmega324_modbus_gat.Prelude.Result.{Result, ok, throw}
use rpi_atmega324_modbus_gat.Modbus.Frame.{ModbusAsciiFrame, of_string, new_frame}
use rpi_atmega324_modbus_gat.Modbus.Request.{
  RequestFault, modbus_timeout, timeout, serial_interface_error, request_fails, of_request,
  of_serial_port, no_cause, lrc_error, ModbusRequestError, ModbusRequest, is_set,
  set_request_received, set_response, set_sent_at, set_error,
}

-- What a handler throws: an Error of the request's setters, the TypeError of reading a property of
-- `undefined`, or an Error of `send` and `open`.
pub data Fault : Type 0 where
  request_fault : RequestFault → Fault
  type_error port_not_open invalid_timeout open_already_called : Fault

-- The text received so far: not assigned yet, null, or a text.
pub data FrameText : Type 0 where
  undefined null : FrameText
  text : List ℕ → FrameText

-- A timer that is set holds the time when it fires.
pub record PendingRequest : Type 0 where
  pub requ : ModbusRequest
  pub timer : Option ℕ
  pub timer_modbus : Option ℕ

-- What the driver does to the outside: `writes i` is the call `this.write(r)`, whose nextTick hands
-- the frame of `i` to the port; the other two settle the promise of `i`.
pub data Effect : Type 0 where
  writes resolves : ℕ → Effect
  rejects : ℕ → ModbusRequestError → Effect
  open_resolved open_rejected : Effect

-- `serial_port` and `open_promise` say whether the fields are set. The latest effect stands first.
pub record Serial : Type 0 where
  pub serial_port : Bool
  pub open_promise : Bool
  pub frame : FrameText
  pub memory : ℕ → PendingRequest
  pub next : ℕ
  pub pending : List ℕ
  pub effects : List Effect

-- A handler runs on the state and returns or throws; what it did before it throws stays done.
abbrev pub M : Type 0 → Type 0
M A = Serial → Result Fault A × Serial

abbrev pub continue : {A B : Type 0} → (A → M B) → Result Fault A × Serial → Result Fault B × Serial
continue f (ok a, s) = f a s
continue f (throw e, s) = (throw e, s)

infixl 5 ◌>>=◌ ◌>>◌
abbrev pub ◌>>=◌ : {A B : Type 0} → M A → (A → M B) → M B
◌>>=◌ m f s = continue f (m s)

abbrev pub ◌>>◌ : {B : Type 0} → M (Unit {0}) → M B → M B
m >> k = m >>= λ _. k

abbrev pub modify : (Serial → Serial) → M (Unit {0})
modify f s = (ok tt, f s)

abbrev pub get : M Serial
get s = (ok s, s)

abbrev pub skip : M (Unit {0})
skip s = (ok tt, s)

abbrev pub raise : Fault → M (Unit {0})
raise e s = (throw e, s)

abbrev pub catch_all : Result Fault (Unit {0}) × Serial → Result Fault (Unit {0}) × Serial
catch_all (r, s) = (ok tt, s)

-- `try { m } catch (e) { warn }`.
abbrev pub attempt : M (Unit {0}) → M (Unit {0})
attempt m s = catch_all (m s)

abbrev pub update {ℓ} : {A : Type ℓ} → (ℕ → A) → ℕ → A → ℕ → A
update m i v j = if j == i then v else m j

abbrev pub emit : Effect → M (Unit {0})
emit e = modify (λ s. record s { effects = e ∷ s.effects })

abbrev pub store : ℕ → PendingRequest → M (Unit {0})
store i r = modify (λ s. record s { memory = update s.memory i r })

abbrev assign : ℕ → Serial → Result RequestFault ModbusRequest → Result Fault (Unit {0}) × Serial
assign i s (ok r) =
    (ok tt, record s { memory = update s.memory i (record (s.memory i) { requ = r }) })
assign i s (throw e) = (throw (request_fault e), s)

-- A setter of the request at `i`.
abbrev pub with_request : ℕ → (ModbusRequest → Result RequestFault ModbusRequest) → M (Unit {0})
with_request i f s = assign i s (f (s.memory i).requ)

-- `clearTimeout` of both timers, and `null` in both fields.
abbrev pub clear_timers : ℕ → M (Unit {0})
clear_timers i = modify λ s. record s {
  memory = update s.memory i (record (s.memory i) { timer = none; timer_modbus = none });
}

-- `this._pending.splice(0, 1)`.
abbrev pub splice_pending : M (Unit {0})
splice_pending = modify (λ s. record s { pending = drop 1 s.pending })

abbrev write_first : List ℕ → M (Unit {0})
write_first [] = skip
write_first (i ∷ rest) = emit (writes i)

-- `if (this._pending.length > 0) { this.write(this._pending[0]); }`
unfoldable pub write_head : M (Unit {0})
write_head s = write_first s.pending s

unfoldable pub handle_error : ℕ → ModbusRequestError → M (Unit {0})
unfolding write_head
handle_error i err = do
  splice_pending
  with_request i (set_error err)
  clear_timers i
  emit (rejects i err)
  write_head

abbrev pub timeout_error : ℕ → Bool → ModbusRequestError
timeout_error i modbus = record {
  message = if modbus then modbus_timeout else timeout;
  request = of_request i;
  cause = no_cause;
}

unfoldable pub handle_timeout : ℕ → Bool → M (Unit {0})
unfolding handle_error
handle_timeout i modbus = do clear_timers i; handle_error i (timeout_error i modbus)

-- The callback of `this._serialPort.write`; `err` is the port's error.
unfoldable pub write_done : ℕ → ℕ → Option ℕ → M (Unit {0})
unfolding handle_error
write_done now i (some err) =
    handle_error i
      (record { message = serial_interface_error; request = of_serial_port err; cause = no_cause })
write_done now i none = do
  with_request i (set_sent_at now)
  s ← get
  let r = s.memory i
  store i
      (record r { timer_modbus = some (now + (if r.requ.is_log_set_register then 800 else 2400)) })

abbrev default_timeout : ℕ → Option ℕ → ℕ
default_timeout d none = d
default_timeout d (some zero) = d
default_timeout d (some (suc t)) = suc t

-- The promise that `send` returns is the one of the request at the returned place.
unfoldable pub send : ℕ → ModbusRequest → Option ℕ → M ℕ
unfolding write_head
send now request timeout_millis s =
    let timeout_modbus = if request.is_log_set_register then 500 else 2100 in
    let millis = default_timeout (timeout_modbus + 1000) timeout_millis in
    let x : PendingRequest = record {
      requ = request;
      timer = some (now + millis);
      timer_modbus = none;
    } in
    let i = s.next in
    let queued = record s {
      memory = update s.memory i x;
      next = suc i;
      pending = s.pending ++ i ∷ [];
    } in
    if not s.serial_port || s.open_promise
    then (throw port_not_open, s)
    else (if ltb millis timeout_modbus
        then (throw invalid_timeout, s)
        else (ok i, if length queued.pending == 1 then (write_head queued).1 else queued))

-- `open`, up to the call of the port's `open`, and that call's callback.
unfoldable pub open_port : M (Unit {0})
open_port s =
    if s.open_promise
    then (throw open_already_called, s)
    else (ok tt, record s { serial_port = true; open_promise = true })

unfoldable pub open_done : Bool → M (Unit {0})
open_done failed s =
    if s.open_promise
    then (
      ok tt,
      record s {
        open_promise = false;
        effects = (if failed then open_rejected else open_resolved) ∷ s.effects;
      },
    )
    else (ok tt, s)
