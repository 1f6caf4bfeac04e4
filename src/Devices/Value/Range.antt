-- ===== src/Devices/Value/Range.antt =====
-- Which numbers setRawValue of nibe1155-value.ts can make of a raw value.
use rpi_atmega324_modbus_gat.Prelude.{ℕ, ◌≡◌, refl, arith}
use rpi_atmega324_modbus_gat.Prelude.Int.{ℤ, pos, negsuc, ◌≤ℤ◌}
use rpi_atmega324_modbus_gat.Prelude.Num.{Num, num}
use rpi_atmega324_modbus_gat.Modbus.Access.{Size, u8, s8, u16, s16, u32, s32}
use rpi_atmega324_modbus_gat.Devices.Value.{
  Date, Nibe1155Value, low_bits, raw_number, scaled, set_raw_value,
}

-- The numbers of a size; those of u32 are the signed ones, which the operator `&` gives.
abbrev pub IsOfSize : Size → ℤ → Type 0
IsOfSize u8 v = (pos 0 ≤ℤ v) × (v ≤ℤ pos 255)
IsOfSize s8 v = (negsuc 127 ≤ℤ v) × (v ≤ℤ pos 127)
IsOfSize u16 v = (pos 0 ≤ℤ v) × (v ≤ℤ pos 65535)
IsOfSize s16 v = (negsuc 32767 ≤ℤ v) × (v ≤ℤ pos 32767)
IsOfSize u32 v = (negsuc 2147483647 ≤ℤ v) × (v ≤ℤ pos 2147483647)
IsOfSize s32 v = (negsuc 2147483647 ≤ℤ v) × (v ≤ℤ pos 2147483647)

-- Two to the number of bits.
abbrev pub modulus : Size → ℕ
modulus u8 = 256
modulus s8 = 256
modulus u16 = 65536
modulus s16 = 65536
modulus u32 = 4294967296
modulus s32 = 4294967296

raw_number-IsOfSize : (size : Size) (x : Num) → IsOfSize size (raw_number size x)
raw_number-IsOfSize u8 x = ground arith
raw_number-IsOfSize s8 x = ground arith
raw_number-IsOfSize u16 x = ground arith
raw_number-IsOfSize s16 x = ground arith
raw_number-IsOfSize u32 x = ground arith
raw_number-IsOfSize s32 x = ground arith

low_bits-raw_number :
    (size : Size) (x : Num)
    → low_bits (modulus size) (num (raw_number size x)) ≡ low_bits (modulus size) x
low_bits-raw_number u8 x = ground arith
low_bits-raw_number s8 x = ground arith
low_bits-raw_number u16 x = ground arith
low_bits-raw_number s16 x = ground arith
low_bits-raw_number u32 x = ground arith
low_bits-raw_number s32 x = ground arith

-- Whatever raw value arrives, also NaN and undefined, the value is a number of the register's size in the
-- register's unit, for u32 of the signed size, and has the bits of the raw value.
pub set_raw_value-IsOfSize :
    (x : Nibe1155Value) (raw : Num) (at : Date)
    → (n : ℤ) × ((set_raw_value raw at x).value ≡ num (scaled x.def.factor n))
      × IsOfSize x.def.size n
      × (low_bits (modulus x.def.size) (num n) ≡ low_bits (modulus x.def.size) raw)
unfolding set_raw_value
set_raw_value-IsOfSize x raw at = (
  raw_number x.def.size raw,
  refl,
  raw_number-IsOfSize x.def.size raw,
  low_bits-raw_number x.def.size raw,
)
