-- ===== src/Modbus/Request/Factory.antt =====
-- What the two factory methods for one register or a block to read of ModbusRequestFactory put into a request.
use rpi_atmega324_modbus_gat.Prelude.{
  ℕ, ◌-◌, ◌/◌, ◌%◌, ◌≤◌, ◌<◌, ◌≡◌, refl, ap, ◌∙◌, Bool, true, List, [], ◌∷◌, ◌++◌, arith, leb,
  length,
}
use rpi_atmega324_modbus_gat.Prelude.Int.{pos}
use rpi_atmega324_modbus_gat.Prelude.Num.{num}
use rpi_atmega324_modbus_gat.Prelude.Result.{ok}
use rpi_atmega324_modbus_gat.Modbus.Frame.{
  ModbusAsciiFrame, new_frame, print_bytes, lrc_check, lrc_from,
}
use rpi_atmega324_modbus_gat.Modbus.Frame.Text.{AreBytes}
use rpi_atmega324_modbus_gat.Modbus.Access.{byte_at, word_at}
use rpi_atmega324_modbus_gat.Modbus.Request.{
  new_request, request_of_bytes, create_read_hold_register, create_write_hold_register,
}

-- The frame that is built for the bytes `b`.
abbrev pub buffer_frame : (ℕ → List ℕ) → ℕ → List ℕ → ModbusAsciiFrame
buffer_frame fmt now b = record {
  at = now;
  frame = (b':' ∷ print_bytes fmt b) ++ (fmt (lrc_check (lrc_from 0 b)) ++ 13 ∷ 10 ∷ []);
  buffer = b;
  lrc_ok = true;
}

pub request_of_bytes_lem :
    (fmt : ℕ → List ℕ) (now : ℕ) (b : List ℕ) (log : Bool)
    → 2 ≤ length b
    → request_of_bytes fmt now b log ≡ ok (new_request (buffer_frame fmt now b) log)
unfolding request_of_bytes new_frame
request_of_bytes_lem fmt now b log h =
    let e : leb 2 (length b) ≡ true = ground arith in rw (e, new_frame, request_of_bytes)

-- The bytes that stand at the start of every request.
abbrev pub Addressed : ModbusAsciiFrame → (d f a : ℕ) → Type 0
Addressed x d f a =
    AreBytes x.buffer
    × (byte_at x 0 ≡ num (pos d))
    × (byte_at x 1 ≡ num (pos f))
    × (word_at x 2 ≡ num (pos (a - 1)))

pub num_eq : {m n : ℕ} → m ≡ n → num (pos m) ≡ num (pos n)
num_eq e = ap (λ k. num (pos k)) e

-- A read of `q` registers at the address `a` (counted from 1) of the device `d`: the six bytes, in a
-- request for which nothing has been received.
pub create_read_hold_register-layout :
    (fmt : ℕ → List ℕ) (now d a q : ℕ) (log : Bool)
    → d < 256
    → 1 ≤ a
    → a < 65536
    → 1 ≤ q
    → q < 125
    → (x : ModbusAsciiFrame) × (create_read_hold_register fmt now
          (num (pos d))
          (num (pos a))
          (num (pos q))
          log
        ≡ ok (new_request x log))
      × Addressed x d 3 a
      × (length x.buffer ≡ 6)
      × (word_at x 4 ≡ num (pos q))
unfolding create_read_hold_register byte_at word_at
create_read_hold_register-layout fmt now d a q log h1 h2 h3 h4 h5 =
    let b : List ℕ = d % 256 ∷ 3 ∷ (a - 1) / 256 % 256 ∷ (a - 1) % 256 ∷ 0 ∷ q % 256 ∷ [] in
    let guards : create_read_hold_register fmt now (num (pos d)) (num (pos a)) (num (pos q)) log
        ≡ request_of_bytes fmt now b log =
      ground arith in
    (
      buffer_frame fmt now b,
      guards ∙ request_of_bytes_lem fmt now b log (omega arith),
      (omega arith, num_eq (omega arith), refl, num_eq (omega arith)),
      refl,
      num_eq (omega arith),
    )

-- A write of the value `v` to one register.
pub create_write_hold_register-layout :
    (fmt : ℕ → List ℕ) (now d a v : ℕ) (log : Bool)
    → d < 256
    → 1 ≤ a
    → a < 65536
    → v < 65535
    → (x : ModbusAsciiFrame) × (create_write_hold_register fmt now
          (num (pos d))
          (num (pos a))
          (num (pos v))
          log
        ≡ ok (new_request x log))
      × Addressed x d 6 a
      × (length x.buffer ≡ 6)
      × (word_at x 4 ≡ num (pos v))
unfolding create_write_hold_register byte_at word_at
create_write_hold_register-layout fmt now d a v log h1 h2 h3 h4 =
    let b : List ℕ =
      d % 256 ∷ 6 ∷ (a - 1) / 256 % 256 ∷ (a - 1) % 256 ∷ v / 256 % 256 ∷ v % 256 ∷ [] in
    let guards : create_write_hold_register fmt now (num (pos d)) (num (pos a)) (num (pos v)) log
        ≡ request_of_bytes fmt now b log =
      ground arith in
    (
      buffer_frame fmt now b,
      guards ∙ request_of_bytes_lem fmt now b log (omega arith),
      (omega arith, num_eq (omega arith), refl, num_eq (omega arith)),
      refl,
      num_eq (omega arith),
    )
