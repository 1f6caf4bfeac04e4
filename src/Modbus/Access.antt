-- ===== src/Modbus/Access.antt =====
-- The readers of ModbusAsciiFrame (modbus-ascii-frame.ts, from byteAt on): bytes and words of the buffer.
-- A byte past the end is `undefined`, and makes arithmetic NaN.
use rpi_atmega324_modbus_gat.Prelude.{
  ℕ, ◌+◌, ◌*◌, Option, none, some, ltb, leb, if◌then◌else◌, length, get_elem?,
}
use rpi_atmega324_modbus_gat.Prelude.Int.{pos, negsuc, sub_ℕ}
use rpi_atmega324_modbus_gat.Prelude.Num.{Num, undefined, nan, num}
use rpi_atmega324_modbus_gat.Modbus.Frame.{ModbusAsciiFrame}

-- 'u8' | 's8' | 'u16' | 's16' | 'u32' | 's32'
pub data Size : Type 0 where
  u8 s8 u16 s16 u32 s32 : Size

-- `this._buffer[index]`.
abbrev pub byte_of : Option ℕ → Num
byte_of none = undefined
byte_of (some b) = num (pos b)

unfoldable pub byte_at : ModbusAsciiFrame → ℕ → Num
byte_at f index = byte_of (get_elem? f.buffer index)

-- `hi * 256 + lo`.
abbrev pub word_of : Option ℕ → Option ℕ → Num
word_of (some hi) (some lo) = num (pos (hi * 256 + lo))
word_of (some hi) none = nan
word_of none lo = nan

unfoldable pub word_at : ModbusAsciiFrame → ℕ → Num
word_at f index = word_of (get_elem? f.buffer index) (get_elem? f.buffer (index + 1))

-- `rv >= half ? rv - 2 * half : rv`.
abbrev pub signed : ℕ → Num → Num
signed half (num (pos x)) = if leb half x then num (sub_ℕ x (2 * half)) else num (pos x)
signed half (num (negsuc x)) = num (negsuc x)
signed half undefined = undefined
signed half nan = nan

unfoldable pub u8_at : ModbusAsciiFrame → ℕ → Num
unfolding byte_at
u8_at f index = if ltb (length f.buffer) index then nan else byte_at f (index + 1)

unfoldable pub s8_at : ModbusAsciiFrame → ℕ → Num
unfolding byte_at
s8_at f index = if ltb (length f.buffer) index then nan else signed 128 (byte_at f (index + 1))

unfoldable pub u16_at : ModbusAsciiFrame → ℕ → Num
unfolding word_at
u16_at f index = if ltb (length f.buffer) index then nan else word_at f index

unfoldable pub s16_at : ModbusAsciiFrame → ℕ → Num
unfolding word_at
s16_at f index = if ltb (length f.buffer) index then nan else signed 32768 (word_at f index)

-- `((b[i + 2] * 256 + b[i + 3]) * 256 + b[i]) * 256 + b[i + 1]`: the second word is the high one.
abbrev pub long_of : Num → Num → Num
long_of (num (pos lo)) (num (pos hi)) = num (pos (hi * 65536 + lo))
long_of lo hi = nan

unfoldable pub long_at : ModbusAsciiFrame → ℕ → Num
unfolding word_at
long_at f index = long_of (word_at f index) (word_at f (index + 2))

unfoldable pub u32_at : ModbusAsciiFrame → ℕ → Num
unfolding long_at
u32_at f index = if ltb (length f.buffer) (index + 2) then nan else long_at f index

unfoldable pub s32_at : ModbusAsciiFrame → ℕ → Num
unfolding long_at
s32_at f index =
    if ltb (length f.buffer) (index + 2) then nan else signed 2147483648 (long_at f index)

unfoldable pub value_at : ModbusAsciiFrame → ℕ → Size → Num
unfolding u8_at s8_at u16_at s16_at u32_at s32_at
value_at f index u8 = u8_at f index
value_at f index s8 = s8_at f index
value_at f index u16 = u16_at f index
value_at f index s16 = s16_at f index
value_at f index u32 = u32_at f index
value_at f index s32 = s32_at f index
