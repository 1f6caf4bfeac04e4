-- ===== src/Modbus/Request.antt =====
-- modbus-request.ts: a request with what has been received for it, its setters that throw when they
-- are called out of turn, and the factory of the three request kinds.
pub mod Factory
pub mod Multiple
pub mod Lifecycle
use rpi_atmega324_modbus_gat.Prelude.{
  ℕ, zero, suc, ◌-◌, ◌*◌, ◌/◌, ◌%◌, Bool, true, false, not, ◌&&◌, ◌||◌, Option, none, some, List,
  [], ◌∷◌, ◌==◌, length, drop,
}
use rpi_atmega324_modbus_gat.Prelude.Int.{ℤ, pos, negsuc}
use rpi_atmega324_modbus_gat.Prelude.Num.{Num, undefined, nan, num, ltb_num, leb_num}
use rpi_atmega324_modbus_gat.Prelude.Result.{Result, ok, throw, ◌>>=◌, ◌>>◌, throw_if}
use rpi_atmega324_modbus_gat.Modbus.Frame.{ModbusAsciiFrame, of_buffer, new_frame}

-- The `Error`s that the setters and the factory throw.
pub data RequestFault : Type 0 where
  received_already_set received_other_length received_other_bytes : RequestFault
  response_already_set response_too_early : RequestFault
  sent_at_already_set error_already_set : RequestFault
  illegal_arguments : RequestFault

pub data ErrorMessage : Type 0 where
  modbus_timeout timeout serial_interface_error : ErrorMessage
  request_fails : ErrorMessage

-- The second argument of ModbusRequestError: the request, by its place in the serial driver's
-- memory, or the error of the serial port that `write` passes there.
pub data ErrorRequest : Type 0 where
  of_request of_serial_port : ℕ → ErrorRequest

-- `lrc_error` is new Error('LRC/CRC error on request').
pub data ErrorCause : Type 0 where
  no_cause lrc_error : ErrorCause

pub record ModbusRequestError : Type 0 where
  pub message : ErrorMessage
  pub request : ErrorRequest
  pub cause : ErrorCause

-- ModbusRequest with the field of ModbusRequestFactory; a field not yet assigned is `none`.
pub record ModbusRequest : Type 0 where
  pub request : ModbusAsciiFrame
  pub request_received : Option ModbusAsciiFrame
  pub response : Option ModbusAsciiFrame
  pub sent_at : Option ℕ
  pub request_received_at : Option ℕ
  pub response_at : Option ℕ
  pub error : Option ModbusRequestError
  pub is_log_set_register : Bool

abbrev pub is_set {ℓ} : {A : Type ℓ} → Option A → Bool
is_set none = false
is_set (some a) = true

unfoldable pub new_request : ModbusAsciiFrame → Bool → ModbusRequest
new_request f is_log_set = record {
  request = f;
  request_received = none;
  response = none;
  sent_at = none;
  request_received_at = none;
  response_at = none;
  error = none;
  is_log_set_register = is_log_set;
}

-- The comparing loop, on buffers of one length.
unfoldable pub same_bytes : List ℕ → List ℕ → Bool
same_bytes [] ys = true
same_bytes (x ∷ xs) [] = false
same_bytes (x ∷ xs) (y ∷ ys) = x == y && same_bytes xs ys

unfoldable pub set_request_received :
    ℕ → ModbusAsciiFrame → ModbusRequest → Result RequestFault ModbusRequest
unfolding same_bytes
set_request_received now value r = do
  throw_if (is_set r.request_received) received_already_set
  throw_if (not (length r.request.buffer == length value.buffer)) received_other_length
  throw_if (not (same_bytes r.request.buffer value.buffer)) received_other_bytes
  ok (record r { request_received = some value; request_received_at = some now })

unfoldable pub set_response :
    ℕ → ModbusAsciiFrame → ModbusRequest → Result RequestFault ModbusRequest
set_response now value r = do
  throw_if (is_set r.error || is_set r.response) response_already_set
  throw_if (not (is_set r.request_received)) response_too_early
  ok (record r { response = some value; response_at = some now })

unfoldable pub set_sent_at : ℕ → ModbusRequest → Result RequestFault ModbusRequest
set_sent_at value r = do
  throw_if (is_set r.sent_at) sent_at_already_set
  ok (record r { sent_at = some value })

unfoldable pub set_error : ModbusRequestError → ModbusRequest → Result RequestFault ModbusRequest
set_error value r = do
  throw_if (is_set r.error) error_already_set
  ok (record r { error = some value })

-- `x < lo || x >= hi`, a comparison with NaN or undefined being false.
abbrev pub outside : ℤ → ℤ → Num → Bool
outside lo hi x = ltb_num x (num lo) || leb_num (num hi) x

-- A number as the operators `>>` and `&` read it: NaN and undefined are 0. (The guards leave
-- only numbers from 0 up.)
abbrev pub to_bits : Num → ℕ
to_bits (num (pos n)) = n
to_bits (num (negsuc n)) = 0
to_bits nan = 0
to_bits undefined = 0

-- A store into a Buffer keeps the low eight bits.
abbrev pub byte : ℕ → ℕ
byte n = n % 256

-- `new ModbusRequestFactory(new ModbusAsciiFrame(b), isLogSetRegister)`.
unfoldable pub request_of_bytes :
    (ℕ → List ℕ) → ℕ → List ℕ → Bool → Result RequestFault ModbusRequest
unfolding new_request
request_of_bytes fmt now b is_log_set = elim (new_frame fmt now (of_buffer b)) [
  | none ↦ throw illegal_arguments
  | some f ↦ ok (new_request f is_log_set)
]

-- The loop over `i < quantity`; `values[i]` past the end is undefined.
abbrev pub head_or_undefined : List Num → Num
head_or_undefined [] = undefined
head_or_undefined (v ∷ vs) = v

unfoldable pub word_bytes : ℕ → List Num → Result RequestFault (List ℕ)
word_bytes zero values = ok []
word_bytes (suc q) values = do
  let v = head_or_undefined values
  throw_if (outside (pos 0) (pos 0xffff) v) illegal_arguments
  rest ← word_bytes q (drop 1 values)
  ok (byte (to_bits v / 256) ∷ to_bits v % 256 ∷ rest)

module _ (fmt : ℕ → List ℕ) (now : ℕ) where
  unfoldable pub create_read_hold_register :
      Num → Num → Num → Bool → Result RequestFault ModbusRequest
  create_read_hold_register dev addr quantity is_log_set = do
    throw_if (ltb_num dev (num (pos 0)) || ltb_num (num (pos 255)) dev) illegal_arguments
    throw_if (outside (pos 1) (pos 0x10000) addr) illegal_arguments
    throw_if (outside (pos 1) (pos 0x7d) quantity) illegal_arguments
    let a = to_bits addr - 1
    request_of_bytes fmt now
        (byte (to_bits dev) ∷ 0x03 ∷ byte (a / 256) ∷ a % 256 ∷ 0 ∷ byte (to_bits quantity) ∷ [])
        is_log_set

  unfoldable pub create_write_hold_register :
      Num → Num → Num → Bool → Result RequestFault ModbusRequest
  create_write_hold_register dev addr value is_log_set = do
    throw_if (ltb_num dev (num (pos 0)) || ltb_num (num (pos 255)) dev) illegal_arguments
    throw_if (outside (pos 1) (pos 0x10000) addr) illegal_arguments
    throw_if (outside (pos 0) (pos 0xffff) value) illegal_arguments
    let a = to_bits addr - 1
    let v = to_bits value
    request_of_bytes fmt now
        (byte (to_bits dev) ∷ 0x06 ∷ byte (a / 256) ∷ a % 256 ∷ byte (v / 256) ∷ v % 256 ∷ [])
        is_log_set

  -- The callers pass a quantity of 1 or 2.
  unfoldable pub create_write_multiple_hold_registers :
      Num → Num → ℕ → List Num → Bool → Result RequestFault ModbusRequest
  unfolding word_bytes
  create_write_multiple_hold_registers dev addr quantity values is_log_set = do
    throw_if (ltb_num dev (num (pos 0)) || ltb_num (num (pos 255)) dev) illegal_arguments
    throw_if (outside (pos 1) (pos 0x10000) addr) illegal_arguments
    let a = to_bits addr - 1
    words ← word_bytes quantity values
    request_of_bytes fmt now
        (byte (to_bits dev)
          ∷ 0x10
          ∷ byte (a / 256)
          ∷ a % 256
          ∷ byte (quantity / 256)
          ∷ quantity % 256
          ∷ byte (quantity * 2)
          ∷ words)
        is_log_set
