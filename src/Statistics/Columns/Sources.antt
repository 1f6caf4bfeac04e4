-- ===== src/Statistics/Columns/Sources.antt =====
-- Which monitored value a column of statistics.ts records, said apart from the switch of addMonitorRecord.
use rpi_atmega324_modbus_gat.Prelude.{
  ◌≡◌, refl, Bool, false, ◌||◌, Option, none, some, List, [], ◌∷◌, ◌==◌, if◌then◌else◌,
}
use rpi_atmega324_modbus_gat.Prelude.Num.{Num}
use rpi_atmega324_modbus_gat.Devices.Registers.{
  Register, id_of_lable, supply_s1_temp, supply_return_temp, brine_in_temp, brine_out_temp,
  condensor_out_temp, hot_gas_temp, liquid_line_temp, suction_temp, supply_temp, degree_minutes,
  calc_supply_temp, electric_heater_power, compressor_frequency, compressor_in_power,
  compressor_state, brine_pump_state, supply_pump_state, supply_pump_speed, brine_pump_speed,
  outdoor_temp, room_temp, outdoor_temp_average, current_l1, current_l2, current_l3,
  energy_comp_and_el_heater, energy_compressor, comp_frequ_target, comp_power10_min,
  comp_number_of_starts, comp_total_operation_time, alarm, alarm_reset, heat_curve_s1,
  heat_offset_s1, supply_min_s1, supply_max_s1, own_heat_curve_p7, own_heat_curve_p6,
  own_heat_curve_p5, own_heat_curve_p4, own_heat_curve_p3, own_heat_curve_p2, own_heat_curve_p1,
  reg_max_supply_diff, reg_min_comp_frequ, reg_max_comp_frequ, operational_mode, supply_pump_mode,
  brine_pump_mode, dm_start_heating, add_heating_step, add_heating_max_power, add_heating_fuse,
  allow_additive_heating, allow_heating, stop_temp_heating, stop_temp_add_heating,
  dm_diff_start_add_heating, cut_off_frequ_activated2, cut_off_frequ_activated1,
  cut_off_frequ_start2, cut_off_frequ_start1, cut_off_frequ_stop2, cut_off_frequ_stop1,
}
use rpi_atmega324_modbus_gat.Statistics.{MonitorRecord, column_value}

-- The registers whose columns record anything.
abbrev pub recorded : List Register
recorded =
    calc_supply_temp ∷ supply_temp ∷ degree_minutes ∷ brine_pump_speed ∷ supply_pump_speed
    ∷ compressor_frequency ∷ compressor_in_power ∷ electric_heater_power ∷ supply_s1_temp
    ∷ supply_return_temp ∷ brine_in_temp ∷ brine_out_temp ∷ condensor_out_temp ∷ hot_gas_temp
    ∷ liquid_line_temp ∷ suction_temp ∷ compressor_state ∷ supply_pump_state ∷ brine_pump_state ∷ []

abbrev pub is_register : Register → Register → Bool
is_register p q = id_of_lable p == id_of_lable q

abbrev pub is_among : Register → List Register → Bool
is_among q [] = false
is_among q (p ∷ ps) = is_register q p || is_among q ps

-- A recorded register's own value, but for the suction temperature that of the liquid line.
abbrev pub source_of : Register → Option Register
source_of q =
    if is_register q suction_temp
    then some liquid_line_temp
    else (if is_among q recorded then some q else none)

abbrev pub value_from : MonitorRecord → Option Register → Option Num
value_from r none = none
value_from r (some p) = some (r.values p)

pub column_value-source_of :
    (r : MonitorRecord) (q : Register) → column_value r q ≡ value_from r (source_of q)
unfolding id_of_lable
column_value-source_of r supply_s1_temp = refl
column_value-source_of r supply_return_temp = refl
column_value-source_of r brine_in_temp = refl
column_value-source_of r brine_out_temp = refl
column_value-source_of r condensor_out_temp = refl
column_value-source_of r hot_gas_temp = refl
column_value-source_of r liquid_line_temp = refl
column_value-source_of r suction_temp = refl
column_value-source_of r supply_temp = refl
column_value-source_of r degree_minutes = refl
column_value-source_of r calc_supply_temp = refl
column_value-source_of r electric_heater_power = refl
column_value-source_of r compressor_frequency = refl
column_value-source_of r compressor_in_power = refl
column_value-source_of r compressor_state = refl
column_value-source_of r brine_pump_state = refl
column_value-source_of r supply_pump_state = refl
column_value-source_of r supply_pump_speed = refl
column_value-source_of r brine_pump_speed = refl
column_value-source_of r outdoor_temp = refl
column_value-source_of r room_temp = refl
column_value-source_of r outdoor_temp_average = refl
column_value-source_of r current_l1 = refl
column_value-source_of r current_l2 = refl
column_value-source_of r current_l3 = refl
column_value-source_of r energy_comp_and_el_heater = refl
column_value-source_of r energy_compressor = refl
column_value-source_of r comp_frequ_target = refl
column_value-source_of r comp_power10_min = refl
column_value-source_of r comp_number_of_starts = refl
column_value-source_of r comp_total_operation_time = refl
column_value-source_of r alarm = refl
column_value-source_of r alarm_reset = refl
column_value-source_of r heat_curve_s1 = refl
column_value-source_of r heat_offset_s1 = refl
column_value-source_of r supply_min_s1 = refl
column_value-source_of r supply_max_s1 = refl
column_value-source_of r own_heat_curve_p7 = refl
column_value-source_of r own_heat_curve_p6 = refl
column_value-source_of r own_heat_curve_p5 = refl
column_value-source_of r own_heat_curve_p4 = refl
column_value-source_of r own_heat_curve_p3 = refl
column_value-source_of r own_heat_curve_p2 = refl
column_value-source_of r own_heat_curve_p1 = refl
column_value-source_of r reg_max_supply_diff = refl
column_value-source_of r reg_min_comp_frequ = refl
column_value-source_of r reg_max_comp_frequ = refl
column_value-source_of r operational_mode = refl
column_value-source_of r supply_pump_mode = refl
column_value-source_of r brine_pump_mode = refl
column_value-source_of r dm_start_heating = refl
column_value-source_of r add_heating_step = refl
column_value-source_of r add_heating_max_power = refl
column_value-source_of r add_heating_fuse = refl
column_value-source_of r allow_additive_heating = refl
column_value-source_of r allow_heating = refl
column_value-source_of r stop_temp_heating = refl
column_value-source_of r stop_temp_add_heating = refl
column_value-source_of r dm_diff_start_add_heating = refl
column_value-source_of r cut_off_frequ_activated2 = refl
column_value-source_of r cut_off_frequ_activated1 = refl
column_value-source_of r cut_off_frequ_start2 = refl
column_value-source_of r cut_off_frequ_start1 = refl
column_value-source_of r cut_off_frequ_stop2 = refl
column_value-source_of r cut_off_frequ_stop1 = refl
