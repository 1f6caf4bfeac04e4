-- ===== src/Statistics.antt =====
-- statistics.ts: the records of the time slots. The columns of the CSV file are named by their registers;
-- the texts of the file are left out. Values are in hundredths, and an average is a fraction of them.
pub mod Slots
pub mod Range
pub mod Columns
mod Tests
use rpi_atmega324_modbus_gat.Prelude.{
  ℕ, suc, ◌+◌, ◌*◌, Bool, true, false, ◌||◌, Option, none, some, List, [], ◌∷◌, ◌++◌, arith, ltb,
  ◌==◌, if◌then◌else◌, get_elem?, set,
}
use rpi_atmega324_modbus_gat.Prelude.Int.{ℤ, pos, ◌+ℤ◌, ◌*ℤ◌}
use rpi_atmega324_modbus_gat.Prelude.Num.{Num, undefined, nan, num, ltb_num}
use rpi_atmega324_modbus_gat.Devices.Registers.{
  Register, id_of_lable, add_heating_max_power, add_heating_step, alarm, allow_additive_heating,
  allow_heating, brine_in_temp, brine_out_temp, brine_pump_mode, brine_pump_speed, brine_pump_state,
  calc_supply_temp, comp_number_of_starts, comp_total_operation_time, compressor_frequency,
  compressor_in_power, compressor_state, condensor_out_temp, cut_off_frequ_activated1,
  cut_off_frequ_activated2, cut_off_frequ_start1, cut_off_frequ_start2, cut_off_frequ_stop1,
  cut_off_frequ_stop2, degree_minutes, dm_diff_start_add_heating, dm_start_heating,
  electric_heater_power, energy_comp_and_el_heater, energy_compressor, heat_curve_s1,
  heat_offset_s1, hot_gas_temp, liquid_line_temp, operational_mode, outdoor_temp,
  outdoor_temp_average, reg_max_comp_frequ, reg_max_supply_diff, reg_min_comp_frequ, room_temp,
  stop_temp_add_heating, stop_temp_heating, suction_temp, supply_max_s1, supply_min_s1,
  supply_pump_mode, supply_pump_speed, supply_pump_state, supply_return_temp, supply_s1_temp,
  supply_temp,
}

-- A column: one of the record itself, minimum, average and maximum of a register, or its latest value.
pub data Item : Type 0 where
  cnt first_time last_time : Item
  min_max single : Register → Item

abbrev pub csv_header : List Item
csv_header =
    cnt
    ∷ first_time
    ∷ last_time
    ∷ min_max calc_supply_temp
    ∷ min_max supply_temp
    ∷ min_max degree_minutes
    ∷ min_max brine_pump_speed
    ∷ min_max supply_pump_speed
    ∷ min_max compressor_frequency
    ∷ min_max compressor_in_power
    ∷ min_max electric_heater_power
    ∷ min_max supply_s1_temp
    ∷ min_max supply_return_temp
    ∷ min_max brine_in_temp
    ∷ min_max brine_out_temp
    ∷ min_max condensor_out_temp
    ∷ min_max hot_gas_temp
    ∷ min_max liquid_line_temp
    ∷ min_max suction_temp
    ∷ min_max compressor_state
    ∷ min_max supply_pump_state
    ∷ min_max brine_pump_state
    ∷ single outdoor_temp
    ∷ single room_temp
    ∷ single outdoor_temp_average
    ∷ single heat_curve_s1
    ∷ single supply_min_s1
    ∷ single supply_max_s1
    ∷ single heat_offset_s1
    ∷ single energy_comp_and_el_heater
    ∷ single energy_compressor
    ∷ single alarm
    ∷ single operational_mode
    ∷ single supply_pump_mode
    ∷ single brine_pump_mode
    ∷ single cut_off_frequ_activated1
    ∷ single cut_off_frequ_activated2
    ∷ single cut_off_frequ_start1
    ∷ single cut_off_frequ_stop1
    ∷ single cut_off_frequ_start2
    ∷ single cut_off_frequ_stop2
    ∷ single comp_number_of_starts
    ∷ single comp_total_operation_time
    ∷ single reg_max_supply_diff
    ∷ single reg_min_comp_frequ
    ∷ single reg_max_comp_frequ
    ∷ single dm_start_heating
    ∷ single dm_diff_start_add_heating
    ∷ single add_heating_step
    ∷ single add_heating_max_power
    ∷ single allow_additive_heating
    ∷ single allow_heating
    ∷ single stop_temp_heating
    ∷ single stop_temp_add_heating
    ∷ []

-- NaN, or the fraction `top / bottom`.
pub data Average : Type 0 where
  no_average : Average
  fraction : ℤ → ℕ → Average

pub record MinMaxValue : Type 0 where
  pub reg : Register
  pub min : Num
  pub avg : Average
  pub max : Num

abbrev is_nan : Num → Bool
is_nan undefined = false
is_nan nan = true
is_nan (num a) = false

unfoldable pub calc_minimum : MinMaxValue → Num → MinMaxValue
calc_minimum v x = record v {
  min = if is_nan v.min then x else (if ltb_num x v.min then x else v.min);
}

unfoldable pub calc_maximum : MinMaxValue → Num → MinMaxValue
calc_maximum v x = record v {
  max = if is_nan v.max then x else (if ltb_num v.max x then x else v.max);
}

-- `x` alone, or `(avg * oldCnt + x) / (oldCnt + 1)`.
abbrev average_with : Average → ℕ → Num → Average
average_with no_average n (num a) = fraction a 1
average_with (fraction t b) n (num a) = fraction (t *ℤ pos n +ℤ a *ℤ pos b) (b * (n + 1))
average_with v n nan = no_average
average_with v n undefined = no_average

unfoldable pub calc_average : MinMaxValue → ℕ → Num → MinMaxValue
unfolding ◌+ℤ◌ ◌*ℤ◌
calc_average v old_cnt x = record v { avg = average_with v.avg old_cnt x }

unfoldable pub handle_value : MinMaxValue → ℕ → Num → MinMaxValue
unfolding calc_minimum calc_maximum calc_average
handle_value v n x = calc_average (calc_maximum (calc_minimum v x) x) n x

-- A value with the time it was set at.
pub record SingleValue : Type 0 where
  pub value : Num
  pub at : ℕ

pub record StatisticsRecord : Type 0 where
  pub header : List Item
  pub value_count : ℕ
  pub first_at : Option ℕ
  pub last_at : Option ℕ
  pub min_max_values : List MinMaxValue
  pub single_values : Register → Option SingleValue

abbrev pub fresh : Register → MinMaxValue
fresh r = record { reg = r; min = nan; avg = no_average; max = nan }

-- The constructor gives every column but those of the record itself an entry, also the single values.
unfoldable pub entries_of : List Item → List MinMaxValue
entries_of [] = []
entries_of (cnt ∷ hs) = entries_of hs
entries_of (first_time ∷ hs) = entries_of hs
entries_of (last_time ∷ hs) = entries_of hs
entries_of (min_max r ∷ hs) = fresh r ∷ entries_of hs
entries_of (single r ∷ hs) = fresh r ∷ entries_of hs

unfoldable pub new_statistics_record :
    List Item → (Register → Option SingleValue) → StatisticsRecord
unfolding entries_of
new_statistics_record header singles = record {
  header = header;
  value_count = 0;
  first_at = none;
  last_at = none;
  min_max_values = entries_of header;
  single_values = singles;
}

pub record MonitorRecord : Type 0 where
  pub created_at : ℕ
  pub values : Register → Num

-- The switch over the id of a column; the default case only logs.
abbrev pub column_value : MonitorRecord → Register → Option Num
column_value r q = elim q [
  | calc_supply_temp ↦ some (r.values calc_supply_temp)
  | supply_temp ↦ some (r.values supply_temp)
  | degree_minutes ↦ some (r.values degree_minutes)
  | brine_pump_speed ↦ some (r.values brine_pump_speed)
  | supply_pump_speed ↦ some (r.values supply_pump_speed)
  | compressor_frequency ↦ some (r.values compressor_frequency)
  | compressor_in_power ↦ some (r.values compressor_in_power)
  | electric_heater_power ↦ some (r.values electric_heater_power)
  | supply_s1_temp ↦ some (r.values supply_s1_temp)
  | supply_return_temp ↦ some (r.values supply_return_temp)
  | brine_in_temp ↦ some (r.values brine_in_temp)
  | brine_out_temp ↦ some (r.values brine_out_temp)
  | condensor_out_temp ↦ some (r.values condensor_out_temp)
  | hot_gas_temp ↦ some (r.values hot_gas_temp)
  | liquid_line_temp ↦ some (r.values liquid_line_temp)
  | suction_temp ↦ some (r.values liquid_line_temp)
  | compressor_state ↦ some (r.values compressor_state)
  | supply_pump_state ↦ some (r.values supply_pump_state)
  | brine_pump_state ↦ some (r.values brine_pump_state)
  | _ ↦ none
]

abbrev pub entry_of : ℕ → ℕ → List MinMaxValue → MinMaxValue → Option Num → List MinMaxValue
entry_of n i vs v none = vs
entry_of n i vs v (some x) = set vs i (handle_value v n x)

abbrev pub entry_with :
    MonitorRecord → ℕ → Register → ℕ → List MinMaxValue → Option MinMaxValue → List MinMaxValue
entry_with r n q i vs none = vs
entry_with r n q i vs (some v) =
    if id_of_lable v.reg == id_of_lable q then entry_of n i vs v (column_value r q) else vs

-- The loop over the header. `i` is the index of the source, `i + offset`.
unfoldable pub add_columns : MonitorRecord → ℕ → List Item → ℕ → List MinMaxValue → List MinMaxValue
unfolding handle_value id_of_lable
add_columns r n [] i vs = vs
add_columns r n (cnt ∷ hs) i vs = add_columns r n hs i vs
add_columns r n (first_time ∷ hs) i vs = add_columns r n hs i vs
add_columns r n (last_time ∷ hs) i vs = add_columns r n hs i vs
add_columns r n (single q ∷ hs) i vs = add_columns r n hs (suc i) vs
add_columns r n (min_max q ∷ hs) i vs =
    add_columns r n hs (suc i) (entry_with r n q i vs (get_elem? vs i))

unfoldable pub add_monitor_record : MonitorRecord → StatisticsRecord → StatisticsRecord
unfolding add_columns
add_monitor_record r s = record s {
  first_at = if s.value_count == 0 then some r.created_at else s.first_at;
  last_at = some r.created_at;
  min_max_values = add_columns r s.value_count s.header 0 s.min_max_values;
  value_count = suc s.value_count;
}

-- A value that is no number or NaN is left out.
unfoldable pub add_single_value : Register → Num → ℕ → StatisticsRecord → StatisticsRecord
unfolding id_of_lable
add_single_value q undefined at s = s
add_single_value q nan at s = s
add_single_value q (num a) at s = record s {
  single_values = λ p.
      if id_of_lable p == id_of_lable q
      then some (record { value = num a; at = at })
      else s.single_values p;
}
