-- ===== src/Devices/Registers/Tables.antt =====
-- Laws of the register tables of nibe1155-modbus.ts.
use rpi_atmega324_modbus_gat.Prelude.{◌≡◌, refl, some}
use rpi_atmega324_modbus_gat.Devices.Registers.{
  Register, RegDef, id_of_lable, reg_def_by_id, reg_def_by_lable, supply_s1_temp,
  supply_return_temp, brine_in_temp, brine_out_temp, condensor_out_temp, hot_gas_temp,
  liquid_line_temp, suction_temp, supply_temp, degree_minutes, calc_supply_temp,
  electric_heater_power, compressor_frequency, compressor_in_power, compressor_state,
  brine_pump_state, supply_pump_state, supply_pump_speed, brine_pump_speed, outdoor_temp, room_temp,
  outdoor_temp_average, current_l1, current_l2, current_l3, energy_comp_and_el_heater,
  energy_compressor, comp_frequ_target, comp_power10_min, comp_number_of_starts,
  comp_total_operation_time, alarm, alarm_reset, heat_curve_s1, heat_offset_s1, supply_min_s1,
  supply_max_s1, own_heat_curve_p7, own_heat_curve_p6, own_heat_curve_p5, own_heat_curve_p4,
  own_heat_curve_p3, own_heat_curve_p2, own_heat_curve_p1, reg_max_supply_diff, reg_min_comp_frequ,
  reg_max_comp_frequ, operational_mode, supply_pump_mode, brine_pump_mode, dm_start_heating,
  add_heating_step, add_heating_max_power, add_heating_fuse, allow_additive_heating, allow_heating,
  stop_temp_heating, stop_temp_add_heating, dm_diff_start_add_heating, cut_off_frequ_activated2,
  cut_off_frequ_activated1, cut_off_frequ_start2, cut_off_frequ_start1, cut_off_frequ_stop2,
  cut_off_frequ_stop1,
}

-- The row that `regDefByLable` has for a register: `regDefById` finds it under its own id, and it carries
-- the register's label.
abbrev pub IsRowOf : Register → RegDef → Type 0
IsRowOf r d =
    (reg_def_by_lable r ≡ some d)
    × (d.id ≡ id_of_lable r)
    × (reg_def_by_id d.id ≡ some d)
    × (d.label ≡ r)

-- The two tables agree for each of the 65 registers: the register has a row, the row's id is the key it
-- stands under in both tables, and its label is the register's.
pub reg_def_by_lable-IsRowOf : (r : Register) → (d : RegDef) × IsRowOf r d
unfolding reg_def_by_lable
reg_def_by_lable-IsRowOf supply_s1_temp = (_, (refl, refl, refl, refl))
reg_def_by_lable-IsRowOf supply_return_temp = (_, (refl, refl, refl, refl))
reg_def_by_lable-IsRowOf brine_in_temp = (_, (refl, refl, refl, refl))
reg_def_by_lable-IsRowOf brine_out_temp = (_, (refl, refl, refl, refl))
reg_def_by_lable-IsRowOf condensor_out_temp = (_, (refl, refl, refl, refl))
reg_def_by_lable-IsRowOf hot_gas_temp = (_, (refl, refl, refl, refl))
reg_def_by_lable-IsRowOf liquid_line_temp = (_, (refl, refl, refl, refl))
reg_def_by_lable-IsRowOf suction_temp = (_, (refl, refl, refl, refl))
reg_def_by_lable-IsRowOf supply_temp = (_, (refl, refl, refl, refl))
reg_def_by_lable-IsRowOf degree_minutes = (_, (refl, refl, refl, refl))
reg_def_by_lable-IsRowOf calc_supply_temp = (_, (refl, refl, refl, refl))
reg_def_by_lable-IsRowOf electric_heater_power = (_, (refl, refl, refl, refl))
reg_def_by_lable-IsRowOf compressor_frequency = (_, (refl, refl, refl, refl))
reg_def_by_lable-IsRowOf compressor_in_power = (_, (refl, refl, refl, refl))
reg_def_by_lable-IsRowOf compressor_state = (_, (refl, refl, refl, refl))
reg_def_by_lable-IsRowOf brine_pump_state = (_, (refl, refl, refl, refl))
reg_def_by_lable-IsRowOf supply_pump_state = (_, (refl, refl, refl, refl))
reg_def_by_lable-IsRowOf supply_pump_speed = (_, (refl, refl, refl, refl))
reg_def_by_lable-IsRowOf brine_pump_speed = (_, (refl, refl, refl, refl))
reg_def_by_lable-IsRowOf outdoor_temp = (_, (refl, refl, refl, refl))
reg_def_by_lable-IsRowOf room_temp = (_, (refl, refl, refl, refl))
reg_def_by_lable-IsRowOf outdoor_temp_average = (_, (refl, refl, refl, refl))
reg_def_by_lable-IsRowOf current_l1 = (_, (refl, refl, refl, refl))
reg_def_by_lable-IsRowOf current_l2 = (_, (refl, refl, refl, refl))
reg_def_by_lable-IsRowOf current_l3 = (_, (refl, refl, refl, refl))
reg_def_by_lable-IsRowOf energy_comp_and_el_heater = (_, (refl, refl, refl, refl))
reg_def_by_lable-IsRowOf energy_compressor = (_, (refl, refl, refl, refl))
reg_def_by_lable-IsRowOf comp_frequ_target = (_, (refl, refl, refl, refl))
reg_def_by_lable-IsRowOf comp_power10_min = (_, (refl, refl, refl, refl))
reg_def_by_lable-IsRowOf comp_number_of_starts = (_, (refl, refl, refl, refl))
reg_def_by_lable-IsRowOf comp_total_operation_time = (_, (refl, refl, refl, refl))
reg_def_by_lable-IsRowOf alarm = (_, (refl, refl, refl, refl))
reg_def_by_lable-IsRowOf alarm_reset = (_, (refl, refl, refl, refl))
reg_def_by_lable-IsRowOf heat_curve_s1 = (_, (refl, refl, refl, refl))
reg_def_by_lable-IsRowOf heat_offset_s1 = (_, (refl, refl, refl, refl))
reg_def_by_lable-IsRowOf supply_min_s1 = (_, (refl, refl, refl, refl))
reg_def_by_lable-IsRowOf supply_max_s1 = (_, (refl, refl, refl, refl))
reg_def_by_lable-IsRowOf own_heat_curve_p7 = (_, (refl, refl, refl, refl))
reg_def_by_lable-IsRowOf own_heat_curve_p6 = (_, (refl, refl, refl, refl))
reg_def_by_lable-IsRowOf own_heat_curve_p5 = (_, (refl, refl, refl, refl))
reg_def_by_lable-IsRowOf own_heat_curve_p4 = (_, (refl, refl, refl, refl))
reg_def_by_lable-IsRowOf own_heat_curve_p3 = (_, (refl, refl, refl, refl))
reg_def_by_lable-IsRowOf own_heat_curve_p2 = (_, (refl, refl, refl, refl))
reg_def_by_lable-IsRowOf own_heat_curve_p1 = (_, (refl, refl, refl, refl))
reg_def_by_lable-IsRowOf reg_max_supply_diff = (_, (refl, refl, refl, refl))
reg_def_by_lable-IsRowOf reg_min_comp_frequ = (_, (refl, refl, refl, refl))
reg_def_by_lable-IsRowOf reg_max_comp_frequ = (_, (refl, refl, refl, refl))
reg_def_by_lable-IsRowOf operational_mode = (_, (refl, refl, refl, refl))
reg_def_by_lable-IsRowOf supply_pump_mode = (_, (refl, refl, refl, refl))
reg_def_by_lable-IsRowOf brine_pump_mode = (_, (refl, refl, refl, refl))
reg_def_by_lable-IsRowOf dm_start_heating = (_, (refl, refl, refl, refl))
reg_def_by_lable-IsRowOf add_heating_step = (_, (refl, refl, refl, refl))
reg_def_by_lable-IsRowOf add_heating_max_power = (_, (refl, refl, refl, refl))
reg_def_by_lable-IsRowOf add_heating_fuse = (_, (refl, refl, refl, refl))
reg_def_by_lable-IsRowOf allow_additive_heating = (_, (refl, refl, refl, refl))
reg_def_by_lable-IsRowOf allow_heating = (_, (refl, refl, refl, refl))
reg_def_by_lable-IsRowOf stop_temp_heating = (_, (refl, refl, refl, refl))
reg_def_by_lable-IsRowOf stop_temp_add_heating = (_, (refl, refl, refl, refl))
reg_def_by_lable-IsRowOf dm_diff_start_add_heating = (_, (refl, refl, refl, refl))
reg_def_by_lable-IsRowOf cut_off_frequ_activated2 = (_, (refl, refl, refl, refl))
reg_def_by_lable-IsRowOf cut_off_frequ_activated1 = (_, (refl, refl, refl, refl))
reg_def_by_lable-IsRowOf cut_off_frequ_start2 = (_, (refl, refl, refl, refl))
reg_def_by_lable-IsRowOf cut_off_frequ_start1 = (_, (refl, refl, refl, refl))
reg_def_by_lable-IsRowOf cut_off_frequ_stop2 = (_, (refl, refl, refl, refl))
reg_def_by_lable-IsRowOf cut_off_frequ_stop1 = (_, (refl, refl, refl, refl))
