-- ===== src/Devices/Nibe1155/RoundTrip.antt =====
-- What a write method of nibe1155.ts writes, and what nibe1155-value.ts makes of it when it is read back.
use rpi_atmega324_modbus_gat.Prelude.{◌≡◌, refl, ap, true, some, arith}
use rpi_atmega324_modbus_gat.Prelude.Int.{ℤ, pos, negsuc, ◌≤ℤ◌, ◌+ℤ◌}
use rpi_atmega324_modbus_gat.Prelude.Num.{Num, num}
use rpi_atmega324_modbus_gat.Modbus.Access.{Size, u8, s8, u16, s16, u32, s32}
use rpi_atmega324_modbus_gat.Devices.Registers.{supply_pump_mode, brine_pump_mode, operational_mode}
use rpi_atmega324_modbus_gat.Devices.Value.{
  Date, Nibe1155Value, set_raw_value, raw_number, scaled, Word, shown, pump_mode_text,
  operation_mode_text,
}
use rpi_atmega324_modbus_gat.Devices.Value
use rpi_atmega324_modbus_gat.Devices.Nibe1155.{new_nibe1155}
use rpi_atmega324_modbus_gat.Devices.Nibe1155.Polling.{encoded}
use rpi_atmega324_modbus_gat.Devices.Nibe1155.Writes
use rpi_atmega324_modbus_gat.Devices.Nibe1155.Writes.{
  PumpMode, OperationMode, write_supply_pump_mode, write_brine_pump_mode, write_operation_mode,
}

-- The numbers of a size; of u32 only those below 2 ^ 31.
abbrev pub InRange : Size → ℤ → Type 0
InRange u8 v = (pos 0 ≤ℤ v) × (v ≤ℤ pos 255)
InRange s8 v = (negsuc 127 ≤ℤ v) × (v ≤ℤ pos 127)
InRange u16 v = (pos 0 ≤ℤ v) × (v ≤ℤ pos 65535)
InRange s16 v = (negsuc 32767 ≤ℤ v) × (v ≤ℤ pos 32767)
InRange u32 v = (pos 0 ≤ℤ v) × (v ≤ℤ pos 2147483647)
InRange s32 v = (negsuc 2147483647 ≤ℤ v) × (v ≤ℤ pos 2147483647)

raw_number-encoded :
    (size : Size) (v : ℤ) → InRange size v → raw_number size (encoded size (num v)) ≡ v
unfolding encoded ◌+ℤ◌
raw_number-encoded u8 v h = ground arith
raw_number-encoded s8 v h = ground arith
raw_number-encoded u16 v h = ground arith
raw_number-encoded s16 v h = ground arith
raw_number-encoded u32 v h = ground arith
raw_number-encoded s32 v h = ground arith

-- A number in the range of the register's size that writeRegisterNow encodes and setRawValue decodes
-- comes back as that number, in the register's unit. For u32 it must be below 2 ^ 31.
pub set_raw_value-encoded :
    (x : Nibe1155Value) (v : ℤ) (at : Date)
    → InRange x.def.size v
    → (set_raw_value (encoded x.def.size (num v)) at x).value ≡ num (scaled x.def.factor v)
unfolding set_raw_value
set_raw_value-encoded x v at h =
    ap (λ a. num (scaled x.def.factor a)) (raw_number-encoded x.def.size v h)

abbrev pub pump_word : PumpMode → Word
pump_word Writes.intermittent = Value.intermittent
pump_word Writes.continous = Value.continous
pump_word Writes.economy = Value.economy
pump_word Writes.automatic = Value.auto

abbrev pub operation_word : OperationMode → Word
operation_word Writes.auto = Value.auto
operation_word Writes.manual = Value.manual
operation_word Writes.add_heat_only = Value.add_heat_only

-- The value after the job's raw value was written and read back.
abbrev pub read_back : Num → Date → Nibe1155Value → Nibe1155Value
read_back raw at x = set_raw_value (encoded x.def.size raw) at x

-- A mode that is written by its name is shown by the same name when it is read back, for the supply pump,
-- the brine pump and the operation mode.
pub mode_text-write :
    ((m : PumpMode) (at : Date)
      → pump_mode_text true
          (read_back (write_supply_pump_mode m).1 at (new_nibe1155.values supply_pump_mode))
        ≡ shown (pump_word m) (some at))
    × ((m : PumpMode) (at : Date)
        → pump_mode_text true
            (read_back (write_brine_pump_mode m).1 at (new_nibe1155.values brine_pump_mode))
          ≡ shown (pump_word m) (some at))
    × ((m : OperationMode) (at : Date)
        → operation_mode_text true
            (read_back (write_operation_mode m).1 at (new_nibe1155.values operational_mode))
          ≡ shown (operation_word m) (some at))
unfolding write_supply_pump_mode write_brine_pump_mode write_operation_mode new_nibe1155
    set_raw_value encoded pump_mode_text operation_mode_text
mode_text-write = (supply, brine, operation)
  where
    supply :
        (m : PumpMode) (at : Date)
        → pump_mode_text true
            (read_back (write_supply_pump_mode m).1 at (new_nibe1155.values supply_pump_mode))
          ≡ shown (pump_word m) (some at)
    supply Writes.intermittent at = refl
    supply Writes.continous at = refl
    supply Writes.economy at = refl
    supply Writes.automatic at = refl

    brine :
        (m : PumpMode) (at : Date)
        → pump_mode_text true
            (read_back (write_brine_pump_mode m).1 at (new_nibe1155.values brine_pump_mode))
          ≡ shown (pump_word m) (some at)
    brine Writes.intermittent at = refl
    brine Writes.continous at = refl
    brine Writes.economy at = refl
    brine Writes.automatic at = refl

    operation :
        (m : OperationMode) (at : Date)
        → operation_mode_text true
            (read_back (write_operation_mode m).1 at (new_nibe1155.values operational_mode))
          ≡ shown (operation_word m) (some at)
    operation Writes.auto at = refl
    operation Writes.manual at = refl
    operation Writes.add_heat_only at = refl
