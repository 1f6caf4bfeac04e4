-- ===== src/Devices/Nibe1155/Places.antt =====
-- nibe1155.ts, the constructor: what its loop over the attributes leaves.
use rpi_atmega324_modbus_gat.Prelude.{◌≡◌, refl, not, map, some}
use rpi_atmega324_modbus_gat.Devices.Registers.{
  Register, id_of_lable, supply_s1_temp, supply_return_temp, brine_in_temp, brine_out_temp,
  condensor_out_temp, hot_gas_temp, liquid_line_temp, suction_temp, supply_temp, degree_minutes,
  calc_supply_temp, electric_heater_power, compressor_frequency, compressor_in_power,
  compressor_state, brine_pump_state, supply_pump_state, supply_pump_speed, brine_pump_speed,
  outdoor_temp, room_temp, outdoor_temp_average, current_l1, current_l2, current_l3,
  energy_comp_and_el_heater, energy_compressor, comp_frequ_target, comp_power10_min,
  comp_number_of_starts, comp_total_operation_time, alarm, alarm_reset, heat_curve_s1,
  heat_offset_s1, supply_min_s1, supply_max_s1, own_heat_curve_p7, own_heat_curve_p6,
  own_heat_curve_p5, own_heat_curve_p4, own_heat_curve_p3, own_heat_curve_p2, own_heat_curve_p1,
  reg_max_supply_diff, reg_min_comp_frequ, reg_max_comp_frequ, operational_mode, supply_pump_mode,
  brine_pump_mode, dm_start_heating, add_heating_step, add_heating_max_power, add_heating_fuse,
  allow_additive_heating, allow_heating, stop_temp_heating, stop_temp_add_heating,
  dm_diff_start_add_heating, cut_off_frequ_activated2, cut_off_frequ_activated1,
  cut_off_frequ_start2, cut_off_frequ_start1, cut_off_frequ_stop2, cut_off_frequ_stop1,
}
use rpi_atmega324_modbus_gat.Devices.Nibe1155.{Nibe1155, new_nibe1155, contains}

-- A register is found under its id, its value has the row of that id, and it is polled either with the
-- LOG.SET registers or one by one with the others.
abbrev pub HasPlace : Nibe1155 → Register → Type 0
HasPlace s r =
    (s.id_map (id_of_lable r) ≡ some r)
    × ((s.values r).def.id ≡ id_of_lable r)
    × (contains (id_of_lable r) s.log_set_ids
        ≡ not (contains (id_of_lable r) (map id_of_lable s.non_log_set_regs)))

-- The constructor gives each of the 65 registers its place: the id map finds it under its id, its value
-- carries that id, and exactly one of the two polling lists has it.
pub new_nibe1155-HasPlace : (r : Register) → HasPlace new_nibe1155 r
unfolding new_nibe1155
new_nibe1155-HasPlace supply_s1_temp = (refl, refl, refl)
new_nibe1155-HasPlace supply_return_temp = (refl, refl, refl)
new_nibe1155-HasPlace brine_in_temp = (refl, refl, refl)
new_nibe1155-HasPlace brine_out_temp = (refl, refl, refl)
new_nibe1155-HasPlace condensor_out_temp = (refl, refl, refl)
new_nibe1155-HasPlace hot_gas_temp = (refl, refl, refl)
new_nibe1155-HasPlace liquid_line_temp = (refl, refl, refl)
new_nibe1155-HasPlace suction_temp = (refl, refl, refl)
new_nibe1155-HasPlace supply_temp = (refl, refl, refl)
new_nibe1155-HasPlace degree_minutes = (refl, refl, refl)
new_nibe1155-HasPlace calc_supply_temp = (refl, refl, refl)
new_nibe1155-HasPlace electric_heater_power = (refl, refl, refl)
new_nibe1155-HasPlace compressor_frequency = (refl, refl, refl)
new_nibe1155-HasPlace compressor_in_power = (refl, refl, refl)
new_nibe1155-HasPlace compressor_state = (refl, refl, refl)
new_nibe1155-HasPlace brine_pump_state = (refl, refl, refl)
new_nibe1155-HasPlace supply_pump_state = (refl, refl, refl)
new_nibe1155-HasPlace supply_pump_speed = (refl, refl, refl)
new_nibe1155-HasPlace brine_pump_speed = (refl, refl, refl)
new_nibe1155-HasPlace outdoor_temp = (refl, refl, refl)
new_nibe1155-HasPlace room_temp = (refl, refl, refl)
new_nibe1155-HasPlace outdoor_temp_average = (refl, refl, refl)
new_nibe1155-HasPlace current_l1 = (refl, refl, refl)
new_nibe1155-HasPlace current_l2 = (refl, refl, refl)
new_nibe1155-HasPlace current_l3 = (refl, refl, refl)
new_nibe1155-HasPlace energy_comp_and_el_heater = (refl, refl, refl)
new_nibe1155-HasPlace energy_compressor = (refl, refl, refl)
new_nibe1155-HasPlace comp_frequ_target = (refl, refl, refl)
new_nibe1155-HasPlace comp_power10_min = (refl, refl, refl)
new_nibe1155-HasPlace comp_number_of_starts = (refl, refl, refl)
new_nibe1155-HasPlace comp_total_operation_time = (refl, refl, refl)
new_nibe1155-HasPlace alarm = (refl, refl, refl)
new_nibe1155-HasPlace alarm_reset = (refl, refl, refl)
new_nibe1155-HasPlace heat_curve_s1 = (refl, refl, refl)
new_nibe1155-HasPlace heat_offset_s1 = (refl, refl, refl)
new_nibe1155-HasPlace supply_min_s1 = (refl, refl, refl)
new_nibe1155-HasPlace supply_max_s1 = (refl, refl, refl)
new_nibe1155-HasPlace own_heat_curve_p7 = (refl, refl, refl)
new_nibe1155-HasPlace own_heat_curve_p6 = (refl, refl, refl)
new_nibe1155-HasPlace own_heat_curve_p5 = (refl, refl, refl)
new_nibe1155-HasPlace own_heat_curve_p4 = (refl, refl, refl)
new_nibe1155-HasPlace own_heat_curve_p3 = (refl, refl, refl)
new_nibe1155-HasPlace own_heat_curve_p2 = (refl, refl, refl)
new_nibe1155-HasPlace own_heat_curve_p1 = (refl, refl, refl)
new_nibe1155-HasPlace reg_max_supply_diff = (refl, refl, refl)
new_nibe1155-HasPlace reg_min_comp_frequ = (refl, refl, refl)
new_nibe1155-HasPlace reg_max_comp_frequ = (refl, refl, refl)
new_nibe1155-HasPlace operational_mode = (refl, refl, refl)
new_nibe1155-HasPlace supply_pump_mode = (refl, refl, refl)
new_nibe1155-HasPlace brine_pump_mode = (refl, refl, refl)
new_nibe1155-HasPlace dm_start_heating = (refl, refl, refl)
new_nibe1155-HasPlace add_heating_step = (refl, refl, refl)
new_nibe1155-HasPlace add_heating_max_power = (refl, refl, refl)
new_nibe1155-HasPlace add_heating_fuse = (refl, refl, refl)
new_nibe1155-HasPlace allow_additive_heating = (refl, refl, refl)
new_nibe1155-HasPlace allow_heating = (refl, refl, refl)
new_nibe1155-HasPlace stop_temp_heating = (refl, refl, refl)
new_nibe1155-HasPlace stop_temp_add_heating = (refl, refl, refl)
new_nibe1155-HasPlace dm_diff_start_add_heating = (refl, refl, refl)
new_nibe1155-HasPlace cut_off_frequ_activated2 = (refl, refl, refl)
new_nibe1155-HasPlace cut_off_frequ_activated1 = (refl, refl, refl)
new_nibe1155-HasPlace cut_off_frequ_start2 = (refl, refl, refl)
new_nibe1155-HasPlace cut_off_frequ_start1 = (refl, refl, refl)
new_nibe1155-HasPlace cut_off_frequ_stop2 = (refl, refl, refl)
new_nibe1155-HasPlace cut_off_frequ_stop1 = (refl, refl, refl)
