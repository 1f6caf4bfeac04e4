-- ===== src/EgoHeater/Request/Agreement.antt =====
-- The requests that the two servers build for the same arguments.
use rpi_atmega324_modbus_gat.Prelude.{
  ℕ, ◌-◌, ◌/◌, ◌%◌, ◌≡◌, refl, sym, subst, ◌≢◌, ◌||◌, Option, some, none, Bool, true, false, List,
  [], ◌∷◌,
}
use rpi_atmega324_modbus_gat.Prelude.Int.{pos}
use rpi_atmega324_modbus_gat.Prelude.Num.{Num, num, ltb_num}
use rpi_atmega324_modbus_gat.Prelude.Result.{Result, ok, throw, throw_if, ◌>>◌}
use rpi_atmega324_modbus_gat.Modbus.Frame
use rpi_atmega324_modbus_gat.Modbus.Frame.{ModbusAsciiFrame, of_buffer}
use rpi_atmega324_modbus_gat.Modbus.Frame.Laws.{sum}
use rpi_atmega324_modbus_gat.Modbus.Request
use rpi_atmega324_modbus_gat.Modbus.Request.{byte, to_bits, outside}
use rpi_atmega324_modbus_gat.EgoHeater.Frame.{new_frame-agrees}
use rpi_atmega324_modbus_gat.EgoHeater.Request.{
  ModbusRequest, RequestFault, illegal_arguments, request_of_bytes, create_read_hold_register,
  create_write_hold_register,
}

-- A result of this server's factory has the request's frame that a result of the other one has, or both
-- factories throw.
abbrev pub SameRequest :
    Result RequestFault ModbusRequest → Result Request.RequestFault Request.ModbusRequest → Type 0
SameRequest (ok r) (ok q) = r.request ≡ q.request
SameRequest (ok r) (throw e) = ⊥
SameRequest (throw e) (ok q) = ⊥
SameRequest (throw e) (throw f) = Unit {0}

abbrev request_if : Option ModbusAsciiFrame → Result RequestFault ModbusRequest
request_if o = elim o [
  | none ↦ throw illegal_arguments
  | some f ↦ ok (record { request = f; response = none; sent_at = none })
]

same_of_frames :
    (o : Option ModbusAsciiFrame) (log : Bool)
    → SameRequest (request_if o) (elim o [
      | none ↦ throw Request.illegal_arguments
      | some f ↦ ok (Request.new_request f log)
    ])
unfolding Request.new_request
same_of_frames none log = tt
same_of_frames (some f) log = refl

request_of_bytes-SameRequest :
    (fmt : ℕ → List ℕ) (now : ℕ) (b : List ℕ) (log : Bool)
    → sum b % 256 ≢ 0
    → SameRequest (request_of_bytes fmt now b) (Request.request_of_bytes fmt now b log)
unfolding request_of_bytes Request.request_of_bytes
request_of_bytes-SameRequest fmt now b log h =
    subst (λ o. SameRequest (request_if o) (Request.request_of_bytes fmt now b log))
      (sym (new_frame-agrees fmt now (of_buffer b) h))
      (same_of_frames (Frame.new_frame fmt now (of_buffer b)) log)

same_guard :
    (b : Bool) (r : Result RequestFault ModbusRequest)
    (q : Result Request.RequestFault Request.ModbusRequest)
    → SameRequest r q
    → SameRequest (throw_if b illegal_arguments >> r) (throw_if b Request.illegal_arguments >> q)
same_guard true r q h = tt
same_guard false r q h = h

abbrev guarded : {A E : Type 0} → E → Bool → Bool → Bool → Result E A → Result E A
guarded e b c d r = throw_if b e >> (throw_if c e >> (throw_if d e >> r))

same_guards :
    (b c d : Bool) (r : Result RequestFault ModbusRequest)
    (q : Result Request.RequestFault Request.ModbusRequest)
    → SameRequest r q
    → SameRequest (guarded illegal_arguments b c d r) (guarded Request.illegal_arguments b c d q)
same_guards b c d r q h =
    same_guard b (throw_if c illegal_arguments >> (throw_if d illegal_arguments >> r))
      (throw_if c Request.illegal_arguments >> (throw_if d Request.illegal_arguments >> q))
      (same_guard c (throw_if d illegal_arguments >> r) (throw_if d Request.illegal_arguments >> q)
        (same_guard d r q h))

-- The six bytes of a read and of a write.
abbrev pub read_bytes : Num → Num → Num → List ℕ
read_bytes dev addr quantity =
    byte (to_bits dev)
    ∷ 0x03
    ∷ byte ((to_bits addr - 1) / 256)
    ∷ (to_bits addr - 1) % 256
    ∷ 0
    ∷ byte (to_bits quantity)
    ∷ []

abbrev pub write_bytes : Num → Num → Num → List ℕ
write_bytes dev addr value =
    byte (to_bits dev)
    ∷ 0x06
    ∷ byte ((to_bits addr - 1) / 256)
    ∷ (to_bits addr - 1) % 256
    ∷ byte (to_bits value / 256)
    ∷ to_bits value % 256
    ∷ []

-- The guards that all four factory methods begin with, and the one on the last argument.
abbrev wrong_device : Num → Bool
wrong_device dev = ltb_num dev (num (pos 0)) || ltb_num (num (pos 255)) dev

-- For the same arguments, whatever they are, the factory methods of the two servers build requests with
-- the same frame, or both throw: for a read and for a write of one register whose bytes do not add up to 0
-- modulo 256.
pub create-SameRequest :
    (fmt : ℕ → List ℕ) (now : ℕ) (dev addr x : Num) (log : Bool)
    → sum (read_bytes dev addr x) % 256 ≢ 0
    → sum (write_bytes dev addr x) % 256 ≢ 0
    → SameRequest
        (create_read_hold_register fmt now dev addr x)
        (Request.create_read_hold_register fmt now dev addr x log)
      × SameRequest
          (create_write_hold_register fmt now dev addr x)
          (Request.create_write_hold_register fmt now dev addr x log)
unfolding create_read_hold_register Request.create_read_hold_register create_write_hold_register
    Request.create_write_hold_register
create-SameRequest fmt now dev addr x log h k = (
  same_guards (wrong_device dev) (outside (pos 1) (pos 0x10000) addr) (outside (pos 1) (pos 0x7d) x)
      (request_of_bytes fmt now (read_bytes dev addr x))
      (Request.request_of_bytes fmt now (read_bytes dev addr x) log)
      (request_of_bytes-SameRequest fmt now (read_bytes dev addr x) log h),
  same_guards (wrong_device dev) (outside (pos 1) (pos 0x10000) addr)
      (outside (pos 0) (pos 0xffff) x) (request_of_bytes fmt now (write_bytes dev addr x))
      (Request.request_of_bytes fmt now (write_bytes dev addr x) log)
      (request_of_bytes-SameRequest fmt now (write_bytes dev addr x) log k),
)
