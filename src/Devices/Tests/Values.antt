-- ===== src/Devices/Tests/Values.antt =====
-- The theorems on registers and values at concrete data.
use rpi_atmega324_modbus_gat.Prelude.{◌≡◌, subst, ◌≢◌, false, some, arith}
use rpi_atmega324_modbus_gat.Prelude.{some_inj}
use rpi_atmega324_modbus_gat.Devices.Nibe1155.Polling.{encoded}
use rpi_atmega324_modbus_gat.Prelude.Int.{ℤ, pos, negsuc, ◌+ℤ◌}
use rpi_atmega324_modbus_gat.Prelude.Num.{num}
use rpi_atmega324_modbus_gat.Devices.Registers.{RegDef, outdoor_temp}
use rpi_atmega324_modbus_gat.Devices.Registers.Tables.{IsRowOf, reg_def_by_lable-IsRowOf}
use rpi_atmega324_modbus_gat.Devices.Value.{
  Date, Nibe1155Value, set_raw_value, scaled, low_bits, clear_value_changed, is_value_changed,
}
use rpi_atmega324_modbus_gat.Devices.Value.Changes.{
  is_value_changed-clear_value_changed, is_value_changed-set_raw_value,
}
use rpi_atmega324_modbus_gat.Devices.Value.Range.{IsOfSize, set_raw_value-IsOfSize}
use rpi_atmega324_modbus_gat.Modbus.Access.{s16}
use rpi_atmega324_modbus_gat.Devices.Nibe1155.{new_nibe1155}
use rpi_atmega324_modbus_gat.Devices.Nibe1155.Places.{HasPlace, new_nibe1155-HasPlace}
use rpi_atmega324_modbus_gat.Devices.Nibe1155.RoundTrip.{set_raw_value-encoded}

reg_def_by_lable-IsRowOf_example : (d : RegDef) × IsRowOf outdoor_temp d
reg_def_by_lable-IsRowOf_example = reg_def_by_lable-IsRowOf outdoor_temp

new_nibe1155-HasPlace_example : HasPlace new_nibe1155 outdoor_temp
new_nibe1155-HasPlace_example = new_nibe1155-HasPlace outdoor_temp

-- -4.2 degrees outside, read at two times.
abbrev outdoor : Nibe1155Value
unfolding new_nibe1155
outdoor = new_nibe1155.values outdoor_temp

abbrev first_time : Date
first_time = record { identity = 1; time = 100 }

abbrev second_time : Date
second_time = record { identity = 2; time = 200 }

abbrev cold : Nibe1155Value
unfolding set_raw_value
cold = set_raw_value (num (pos 65494)) first_time outdoor

is_value_changed-clear_value_changed_example : is_value_changed (clear_value_changed cold) ≡ false
is_value_changed-clear_value_changed_example = is_value_changed-clear_value_changed cold

is_value_changed-set_raw_value_example :
    is_value_changed (set_raw_value (num (pos 65494)) second_time cold) ≡ false
unfolding set_raw_value new_nibe1155
is_value_changed-set_raw_value_example =
    is_value_changed-set_raw_value (num (pos 65494)) second_time cold dates
  where
    dates : (e : Date) → some first_time ≡ some e → e.identity ≢ 2
    dates e h = subst (λ d. d.identity ≢ 2) (some_inj h) (omega arith)

set_raw_value-encoded_example :
    (set_raw_value (num (pos 65494)) first_time outdoor).value ≡ num (negsuc 419)
unfolding new_nibe1155 encoded ◌+ℤ◌
set_raw_value-encoded_example =
    set_raw_value-encoded outdoor (negsuc 41) first_time (omega arith, omega arith)

set_raw_value-IsOfSize_example :
    (n : ℤ) × ((set_raw_value (num (pos 65494)) first_time outdoor).value
      ≡ num (scaled outdoor.def.factor n))
    × IsOfSize s16 n
    × (low_bits 65536 (num n) ≡ 65494)
unfolding new_nibe1155
set_raw_value-IsOfSize_example = set_raw_value-IsOfSize outdoor (num (pos 65494)) first_time
