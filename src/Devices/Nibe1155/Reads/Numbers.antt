-- ===== src/Devices/Nibe1155/Reads/Numbers.antt =====
-- nibe1155.ts, the read methods that return the value of a register as it is.
use rpi_atmega324_modbus_gat.Prelude.{ℕ}
use rpi_atmega324_modbus_gat.Prelude.Num.{Num}
use rpi_atmega324_modbus_gat.Devices.Registers.{
  outdoor_temp, room_temp, outdoor_temp_average, current_l1, current_l2, current_l3,
  energy_comp_and_el_heater, energy_compressor, comp_frequ_target, comp_power10_min,
  comp_number_of_starts, comp_total_operation_time, alarm, heat_curve_s1, heat_offset_s1,
  supply_min_s1, supply_max_s1, reg_max_supply_diff, reg_min_comp_frequ, reg_max_comp_frequ,
  dm_start_heating, add_heating_step, add_heating_max_power, add_heating_fuse, stop_temp_heating,
  stop_temp_add_heating, dm_diff_start_add_heating, cut_off_frequ_start2, cut_off_frequ_start1,
  cut_off_frequ_stop2, cut_off_frequ_stop1,
}
use rpi_atmega324_modbus_gat.Devices.Nibe1155.{Nibe1155}
use rpi_atmega324_modbus_gat.Devices.Nibe1155.Writes.{CurveTemp, curve_point}
use rpi_atmega324_modbus_gat.Devices.Nibe1155.Reads.{Waited, Call, get_register_value, value_of}

module _ (wait : ℕ → Nibe1155 → ℕ → Waited) where
  unfoldable pub read_outdoor_temp : Num → Call Num
  unfolding get_register_value
  read_outdoor_temp = value_of wait outdoor_temp

  unfoldable pub read_room_temp : Num → Call Num
  unfolding get_register_value
  read_room_temp = value_of wait room_temp

  unfoldable pub read_outdoor_temp_average : Num → Call Num
  unfolding get_register_value
  read_outdoor_temp_average = value_of wait outdoor_temp_average

  unfoldable pub read_current_l1 : Num → Call Num
  unfolding get_register_value
  read_current_l1 = value_of wait current_l1

  unfoldable pub read_current_l2 : Num → Call Num
  unfolding get_register_value
  read_current_l2 = value_of wait current_l2

  unfoldable pub read_current_l3 : Num → Call Num
  unfolding get_register_value
  read_current_l3 = value_of wait current_l3

  unfoldable pub read_energy_comp_and_el_heater : Num → Call Num
  unfolding get_register_value
  read_energy_comp_and_el_heater = value_of wait energy_comp_and_el_heater

  unfoldable pub read_energy_compressor : Num → Call Num
  unfolding get_register_value
  read_energy_compressor = value_of wait energy_compressor

  unfoldable pub read_comppressor_frequency_target : Num → Call Num
  unfolding get_register_value
  read_comppressor_frequency_target = value_of wait comp_frequ_target

  unfoldable pub read_comppressor_power10_min : Num → Call Num
  unfolding get_register_value
  read_comppressor_power10_min = value_of wait comp_power10_min

  unfoldable pub read_compressor_number_of_starts : Num → Call Num
  unfolding get_register_value
  read_compressor_number_of_starts = value_of wait comp_number_of_starts

  unfoldable pub read_compressor_total_operation_time : Num → Call Num
  unfolding get_register_value
  read_compressor_total_operation_time = value_of wait comp_total_operation_time

  unfoldable pub read_alarm : Num → Call Num
  unfolding get_register_value
  read_alarm = value_of wait alarm

  unfoldable pub read_heat_curve : Num → Call Num
  unfolding get_register_value
  read_heat_curve = value_of wait heat_curve_s1

  unfoldable pub read_heat_offset : Num → Call Num
  unfolding get_register_value
  read_heat_offset = value_of wait heat_offset_s1

  unfoldable pub read_heat_temp_min : Num → Call Num
  unfolding get_register_value
  read_heat_temp_min = value_of wait supply_min_s1

  unfoldable pub read_heat_temp_max : Num → Call Num
  unfolding get_register_value
  read_heat_temp_max = value_of wait supply_max_s1

  unfoldable pub read_reg_max_supply_diff : Num → Call Num
  unfolding get_register_value
  read_reg_max_supply_diff = value_of wait reg_max_supply_diff

  unfoldable pub read_reg_min_comp_frequ : Num → Call Num
  unfolding get_register_value
  read_reg_min_comp_frequ = value_of wait reg_min_comp_frequ

  unfoldable pub read_reg_max_comp_frequ : Num → Call Num
  unfolding get_register_value
  read_reg_max_comp_frequ = value_of wait reg_max_comp_frequ

  unfoldable pub read_dm_start_heating : Num → Call Num
  unfolding get_register_value
  read_dm_start_heating = value_of wait dm_start_heating

  unfoldable pub read_add_heating_step : Num → Call Num
  unfolding get_register_value
  read_add_heating_step = value_of wait add_heating_step

  unfoldable pub read_add_heating_max_power : Num → Call Num
  unfolding get_register_value
  read_add_heating_max_power = value_of wait add_heating_max_power

  unfoldable pub read_add_heating_fuse : Num → Call Num
  unfolding get_register_value
  read_add_heating_fuse = value_of wait add_heating_fuse

  unfoldable pub read_stop_temp_heating : Num → Call Num
  unfolding get_register_value
  read_stop_temp_heating = value_of wait stop_temp_heating

  unfoldable pub read_stop_temp_add_heating : Num → Call Num
  unfolding get_register_value
  read_stop_temp_add_heating = value_of wait stop_temp_add_heating

  unfoldable pub read_dm_diff_start_add_heating : Num → Call Num
  unfolding get_register_value
  read_dm_diff_start_add_heating = value_of wait dm_diff_start_add_heating

  unfoldable pub read_cut_off_frequ_start2 : Num → Call Num
  unfolding get_register_value
  read_cut_off_frequ_start2 = value_of wait cut_off_frequ_start2

  unfoldable pub read_cut_off_frequ_start1 : Num → Call Num
  unfolding get_register_value
  read_cut_off_frequ_start1 = value_of wait cut_off_frequ_start1

  unfoldable pub read_cut_off_frequ_stop2 : Num → Call Num
  unfolding get_register_value
  read_cut_off_frequ_stop2 = value_of wait cut_off_frequ_stop2

  unfoldable pub read_cut_off_frequ_stop1 : Num → Call Num
  unfolding get_register_value
  read_cut_off_frequ_stop1 = value_of wait cut_off_frequ_stop1

  unfoldable pub read_own_heat_curve_point : CurveTemp → Num → Call Num
  unfolding get_register_value
  read_own_heat_curve_point temp = value_of wait (curve_point temp)
