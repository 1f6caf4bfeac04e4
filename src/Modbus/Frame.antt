-- ===== src/Modbus/Frame.antt =====
-- The class ModbusAsciiFrame of modbus-ascii-frame.ts: its constructor's two branches, over the
-- character codes of a text and the bytes of a buffer.
pub mod Text
pub mod Plain
pub mod Laws
pub mod RoundTrip
use rpi_atmega324_modbus_gat.Prelude.{
  ℕ, ◌+◌, ◌-◌, ◌%◌, Bool, true, false, ◌&&◌, Option, none, some, List, [], ◌∷◌, ◌++◌, arith, ltb,
  leb, ◌==◌, if◌then◌else◌, length, get_or, drop,
}
use rpi_atmega324_modbus_gat.Modbus.Hex.{is_hex, parse_int16}

pub record ModbusAsciiFrame : Type 0 where
  pub at : ℕ
  pub frame : List ℕ
  pub buffer : List ℕ
  pub lrc_ok : Bool

-- The constructor's argument, `x?: Buffer | string`.
pub data FrameArgument : Type 0 where
  of_buffer of_string : List ℕ → FrameArgument
  absent : FrameArgument

-- `lrc = (lrc + x[i]) & 0xff`, over the bytes.
unfoldable pub lrc_from : ℕ → List ℕ → ℕ
lrc_from lrc [] = lrc
lrc_from lrc (b ∷ bs) = lrc_from ((lrc + b) % 256) bs

-- `((255 - lrc) + 1) % 256`; the loop keeps `lrc` at most 255.
unfoldable pub lrc_check : ℕ → ℕ
lrc_check lrc = (255 - lrc + 1) % 256

-- `s = s + sprintf('%02X', x[i])`, over the bytes.
unfoldable pub print_bytes : (ℕ → List ℕ) → List ℕ → List ℕ
print_bytes fmt [] = []
print_bytes fmt (b ∷ bs) = fmt b ++ print_bytes fmt bs

-- The rest of /^:([0-9A-F][0-9A-F])+\x0d\x0a$/ behind its first pair of digits.
unfoldable pub matches_pairs : List ℕ → Bool
matches_pairs [] = false
matches_pairs (a ∷ []) = false
matches_pairs (a ∷ b ∷ []) = a == 13 && b == 10
matches_pairs (a ∷ b ∷ c ∷ s) = is_hex a && is_hex b && matches_pairs (c ∷ s)

-- The regular expression.
unfoldable pub matches_frame : List ℕ → Bool
unfolding matches_pairs
matches_frame (c ∷ a ∷ b ∷ s) = c == b':' && is_hex a && is_hex b && matches_pairs s
matches_frame s = false

-- The loop `for (let i = 1, j = 0; i < x.length - 4; i += 2, j++)`, from the characters at `i`: it goes
-- on while more than four are left.
unfoldable pub parse_bytes : List ℕ → List ℕ
parse_bytes [] = []
parse_bytes (a ∷ []) = []
parse_bytes (a ∷ b ∷ s) = if ltb 2 (length s) then parse_int16 a b ∷ parse_bytes s else []

-- `parseInt(x.substr(x.length - 4, 2), 16)`.
unfoldable pub parse_check : List ℕ → ℕ
parse_check s = let t = drop (length s - 4) s in parse_int16 (get_or t 0 0) (get_or t 1 0)

-- The constructor, with sprintf's `%02X` as its argument; `none` is the thrown 'illegal argument'.
unfoldable pub new_frame : (ℕ → List ℕ) → ℕ → FrameArgument → Option ModbusAsciiFrame
unfolding lrc_from lrc_check print_bytes matches_frame parse_bytes parse_check is_hex parse_int16
new_frame fmt now (of_buffer x) =
    if leb 2 (length x)
    then some (record {
      at = now;
      frame = (b':' ∷ print_bytes fmt x) ++ (fmt (lrc_check (lrc_from 0 x)) ++ 13 ∷ 10 ∷ []);
      buffer = x;
      lrc_ok = true;
    })
    else none
new_frame fmt now (of_string x) =
    if leb 9 (length x) && matches_frame x
    then (let bytes = parse_bytes (drop 1 x) in
        some (record {
          at = now;
          frame = x;
          buffer = bytes;
          lrc_ok = parse_check x == lrc_check (lrc_from 0 bytes);
        }))
    else none
new_frame fmt now absent = none
