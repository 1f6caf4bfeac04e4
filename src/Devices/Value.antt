-- ===== src/Devices/Value.antt =====
-- nibe1155-value.ts (with its base class, value.ts): a register's value, how a raw value becomes it, and
-- the text it is shown as. A value is held in hundredths of the register's unit, exactly, where the
-- source has a double.
pub mod Changes
pub mod Range
use rpi_atmega324_modbus_gat.Prelude.{
  ℕ, suc, ◌-◌, ◌*◌, ◌%◌, Bool, true, false, not, ◌&&◌, Option, none, some, List, [], ◌∷◌, leb, ◌==◌,
  if◌then◌else◌,
}
use rpi_atmega324_modbus_gat.Prelude.Int.{ℤ, pos, negsuc, sub_ℕ}
use rpi_atmega324_modbus_gat.Prelude.Num.{Num, undefined, nan, num, eqb_num}
use rpi_atmega324_modbus_gat.Modbus.Access.{Size, u8, s8, u16, s16, u32, s32}
use rpi_atmega324_modbus_gat.Devices.Registers.{RegDef, Factor, centi, deci, one, ten, hundred}

-- A Date is an object: `===` compares the identity.
pub record Date : Type 0 where
  pub identity : ℕ
  pub time : ℕ

-- `raw_value` is undefined where the source has null.
pub record Nibe1155Value : Type 0 where
  pub def : RegDef
  pub value : Num
  pub value_at : Option Date
  pub raw_value : Num
  pub old_value : Num
  pub old_value_at : Option Date

-- The constructor on a row of the table, which has no value.
unfoldable pub new_nibe1155_value : RegDef → Nibe1155Value
new_nibe1155_value d = record {
  def = d;
  value = nan;
  value_at = none;
  raw_value = undefined;
  old_value = nan;
  old_value_at = none;
}

abbrev pub same_date : Option Date → Option Date → Bool
same_date none none = true
same_date none (some e) = false
same_date (some d) none = false
same_date (some d) (some e) = d.identity == e.identity

abbrev pub is_some {ℓ} : {A : Type ℓ} → Option A → Bool
is_some none = false
is_some (some a) = true

unfoldable pub is_value_changed : Nibe1155Value → Bool
is_value_changed v =
    if not (is_some v.old_value_at)
    then is_some v.value_at
    else not (same_date v.old_value_at v.value_at) && not (eqb_num v.old_value v.value)

unfoldable pub clear_value_changed : Nibe1155Value → Nibe1155Value
clear_value_changed v = record v { old_value = v.value; old_value_at = v.value_at }

-- `value & (2 ^ w - 1)` for w up to 32, as a number from 0 up: the low bits in two's complement; NaN and
-- undefined have none.
abbrev pub low_bits : ℕ → Num → ℕ
low_bits m (num (pos n)) = n % m
low_bits m (num (negsuc n)) = m - 1 - n % m
low_bits m undefined = 0
low_bits m nan = 0

-- `x >= half ? x - 2 * half : x`.
abbrev pub from_half : ℕ → ℕ → ℤ
from_half half x = if leb half x then sub_ℕ x (2 * half) else pos x

-- The number that the bits stand for. For u32 and s32 the operator `&` itself gives a signed number, so
-- the comparison with 0x80000000 in the case s32 is never true.
abbrev pub raw_number : Size → Num → ℤ
raw_number u8 x = pos (low_bits 0x100 x)
raw_number s8 x = from_half 0x80 (low_bits 0x100 x)
raw_number u16 x = pos (low_bits 0x10000 x)
raw_number s16 x = from_half 0x8000 (low_bits 0x10000 x)
raw_number u32 x = from_half 0x80000000 (low_bits 0x100000000 x)
raw_number s32 x = from_half 0x80000000 (low_bits 0x100000000 x)

-- What one unit of a raw value is, in hundredths: `1 / factor`.
abbrev pub hundredths : Factor → ℕ
hundredths centi = 10000
hundredths deci = 1000
hundredths one = 100
hundredths ten = 10
hundredths hundred = 1

abbrev pub scaled : Factor → ℤ → ℤ
scaled f (pos n) = pos (n * hundredths f)
scaled f (negsuc n) = negsuc (suc n * hundredths f - 1)

unfoldable pub set_raw_value : Num → Date → Nibe1155Value → Nibe1155Value
set_raw_value x at v = record v {
  raw_value = x;
  value = num (scaled v.def.factor (raw_number v.def.size x));
  value_at = some at;
  old_value = v.value;
  old_value_at = v.value_at;
}

-- The words of the texts.
pub data Word : Type 0 where
  stopped starting running stopping : Word
  off on ten_day_mode calibration : Word
  intermittent continous economy auto : Word
  manual add_heat_only : Word
  kein_fehler hohe_kondensatortemperatur question_mark : Word

-- What valueAsString shows of a value with words: nothing, an error with the value, or the word, with the
-- time (and for an alarm the value, in front of the time) where it is asked for.
pub data ValueText : Type 0 where
  blank : ValueText
  failed : Num → ValueText
  shown : Word → Option Date → ValueText
  shown_with_value : Word → Num → Date → ValueText

-- `switch (this._value)`: the word of the first case that fits.
abbrev pub case_word : List (ℕ × Word) → Num → Option Word
case_word [] x = none
case_word ((n, w) ∷ rest) x = if eqb_num x (num (pos (n * 100))) then some w else case_word rest x

abbrev pub shown_at : Bool → Date → Option Word → Num → ValueText
shown_at add_time d none x = failed x
shown_at add_time d (some w) x = shown w (if add_time then some d else none)

abbrev pub word_text : List (ℕ × Word) → Bool → Nibe1155Value → Option Date → ValueText
word_text cases add_time v none = blank
word_text cases add_time v (some d) = shown_at add_time d (case_word cases v.value) v.value

unfoldable pub compressor_state_text : Bool → Nibe1155Value → ValueText
compressor_state_text add_time v =
    word_text ((20, stopped) ∷ (40, starting) ∷ (60, running) ∷ (100, stopping) ∷ []) add_time v
      v.value_at

unfoldable pub pump_state_text : Bool → Nibe1155Value → ValueText
pump_state_text add_time v =
    word_text ((10, off) ∷ (15, starting) ∷ (20, on) ∷ (40, ten_day_mode) ∷ (80, calibration) ∷ [])
      add_time v v.value_at

unfoldable pub pump_mode_text : Bool → Nibe1155Value → ValueText
pump_mode_text add_time v =
    word_text ((10, intermittent) ∷ (20, continous) ∷ (30, economy) ∷ (40, auto) ∷ []) add_time v
      v.value_at

unfoldable pub operation_mode_text : Bool → Nibe1155Value → ValueText
operation_mode_text add_time v =
    word_text ((0, auto) ∷ (1, manual) ∷ (2, add_heat_only) ∷ []) add_time v v.value_at

abbrev alarm_word : Option Word → Word
alarm_word none = question_mark
alarm_word (some w) = w

abbrev alarm_shown : Bool → Word → Num → Option Date → ValueText
alarm_shown add_time w x none = blank
alarm_shown add_time w x (some d) = if add_time then shown_with_value w x d else shown w none

unfoldable pub alarm_text : Bool → Nibe1155Value → ValueText
alarm_text add_time v =
    alarm_shown add_time
      (alarm_word (case_word ((0, kein_fehler) ∷ (163, hohe_kondensatortemperatur) ∷ []) v.value))
      v.value v.value_at
