-- ===== src/Devices/Nibe1155.antt =====
-- nibe1155.ts, the state of the class Nibe1155 and what it does over Modbus: the queue of register jobs,
-- the parsing of responses, and the change events. The registers' values stand in the object's
-- attributes; the requests that a poll sends, the events it emits and the values it hands to the
-- statistics are recorded, the latest first.
pub mod Places
pub mod Writes
pub mod Reads
pub mod Polling
pub mod RoundTrip
use rpi_atmega324_modbus_gat.Prelude.{
  ℕ, Bool, true, false, ◌||◌, Option, none, some, List, [], ◌∷◌, arith, ◌==◌, if◌then◌else◌,
}
use rpi_atmega324_modbus_gat.Prelude.Int.{pos, negsuc}
use rpi_atmega324_modbus_gat.Prelude.Num.{Num, undefined, num, ltb_num}
use rpi_atmega324_modbus_gat.Modbus.Access.{u16}
use rpi_atmega324_modbus_gat.Modbus.Request.{RequestFault, ModbusRequest}
use rpi_atmega324_modbus_gat.Devices.Registers.{
  Register, RegDef, read_only, one, id_of_lable, reg_def_by_lable, supply_s1_temp,
  supply_return_temp, brine_in_temp, brine_out_temp, condensor_out_temp, hot_gas_temp,
  liquid_line_temp, suction_temp, supply_temp, degree_minutes, calc_supply_temp,
  electric_heater_power, compressor_frequency, compressor_in_power, compressor_state,
  brine_pump_state, supply_pump_state, supply_pump_speed, brine_pump_speed, outdoor_temp, room_temp,
  outdoor_temp_average, current_l1, current_l2, current_l3, energy_comp_and_el_heater,
  energy_compressor, comp_frequ_target, comp_power10_min, comp_number_of_starts,
  comp_total_operation_time, alarm, alarm_reset, heat_curve_s1, heat_offset_s1, supply_min_s1,
  supply_max_s1, own_heat_curve_p7, own_heat_curve_p6, own_heat_curve_p5, own_heat_curve_p4,
  own_heat_curve_p3, own_heat_curve_p2, own_heat_curve_p1, reg_max_supply_diff, reg_min_comp_frequ,
  reg_max_comp_frequ, operational_mode, supply_pump_mode, brine_pump_mode, dm_start_heating,
  add_heating_step, add_heating_max_power, add_heating_fuse, allow_additive_heating, allow_heating,
  stop_temp_heating, stop_temp_add_heating, dm_diff_start_add_heating, cut_off_frequ_activated2,
  cut_off_frequ_activated1, cut_off_frequ_start2, cut_off_frequ_start1, cut_off_frequ_stop2,
  cut_off_frequ_stop1,
}
use rpi_atmega324_modbus_gat.Devices.Value.{Date, Nibe1155Value, new_nibe1155_value}

-- What a promise of a register job is rejected with: an illegal argument, or the port's failure.
pub data Failure : Type 0 where
  bad_request : RequestFault → Failure
  send_failed : ℕ → Failure

-- A register, or a number that may be no register's id.
pub data Target : Type 0 where
  register : Register → Target
  id : ℕ → Target

-- An entry of `_rwNonLogRegs`: `value` is undefined for a read. `promise` names the promise it settles.
pub record Job : Type 0 where
  pub reg : Target
  pub value : Num
  pub promise : ℕ

pub data Event : Type 0 where
  sent : ModbusRequest → Event
  changed : Register → Num → Num → Event
  monitored : Event
  single_value : Target → Num → Date → Event
  resolved rejected : ℕ → Event

pub record Nibe1155 : Type 0 where
  pub log_set_ids : List ℕ
  pub id_map : ℕ → Option Register
  pub values : Register → Nibe1155Value
  pub non_log_set_regs : List Register
  pub set_point_degree_minutes : Num
  pub rw_non_log_regs : List Job
  pub read_non_log_regs_index : ℕ
  pub read_non_log_reg_cnt : ℕ
  pub polling_in_progress : Bool
  pub events : List Event

-- The attributes in the order in which the constructor assigns them, which is the order of `for (att in this)`.
abbrev pub attributes : List Register
attributes =
    supply_s1_temp ∷ supply_return_temp ∷ brine_in_temp ∷ brine_out_temp ∷ condensor_out_temp
    ∷ hot_gas_temp ∷ liquid_line_temp ∷ suction_temp ∷ supply_temp ∷ degree_minutes
    ∷ calc_supply_temp ∷ electric_heater_power ∷ compressor_frequency ∷ compressor_in_power
    ∷ compressor_state ∷ supply_pump_state ∷ brine_pump_state ∷ supply_pump_speed ∷ brine_pump_speed
    ∷ outdoor_temp ∷ room_temp ∷ outdoor_temp_average ∷ current_l1 ∷ current_l2 ∷ current_l3
    ∷ energy_comp_and_el_heater ∷ energy_compressor ∷ comp_frequ_target ∷ comp_power10_min
    ∷ comp_number_of_starts ∷ comp_total_operation_time ∷ alarm ∷ alarm_reset ∷ heat_curve_s1
    ∷ heat_offset_s1 ∷ supply_min_s1 ∷ supply_max_s1 ∷ own_heat_curve_p1 ∷ own_heat_curve_p2
    ∷ own_heat_curve_p3 ∷ own_heat_curve_p4 ∷ own_heat_curve_p5 ∷ own_heat_curve_p6
    ∷ own_heat_curve_p7 ∷ reg_max_supply_diff ∷ reg_min_comp_frequ ∷ reg_max_comp_frequ
    ∷ operational_mode ∷ supply_pump_mode ∷ brine_pump_mode ∷ dm_start_heating ∷ add_heating_step
    ∷ add_heating_max_power ∷ add_heating_fuse ∷ allow_additive_heating ∷ allow_heating
    ∷ stop_temp_heating ∷ stop_temp_add_heating ∷ dm_diff_start_add_heating
    ∷ cut_off_frequ_activated2 ∷ cut_off_frequ_activated1 ∷ cut_off_frequ_start2
    ∷ cut_off_frequ_start1 ∷ cut_off_frequ_stop2 ∷ cut_off_frequ_stop1 ∷ []

abbrev pub log_set_ids_of_device : List ℕ
log_set_ids_of_device =
    40008 ∷ 40012 ∷ 40015 ∷ 40016 ∷ 40017 ∷ 40018 ∷ 40019 ∷ 40022 ∷ 40071 ∷ 43005 ∷ 43009 ∷ 43084
    ∷ 43136 ∷ 43141 ∷ 43427 ∷ 43431 ∷ 43433 ∷ 43437 ∷ 43439 ∷ []

abbrev pub contains : ℕ → List ℕ → Bool
contains x [] = false
contains x (y ∷ ys) = if y == x then true else contains x ys

abbrev or_else : Option Register → Option Register → Option Register
or_else (some r) o = some r
or_else none o = o

-- The two results of the constructor's loop over the attributes.
unfoldable pub id_map_of : List Register → ℕ → Option Register
unfolding id_of_lable
id_map_of [] i = none
id_map_of (r ∷ rs) i = or_else (id_map_of rs i) (if id_of_lable r == i then some r else none)

unfoldable pub non_log_set_regs_of : List ℕ → List Register → List Register
unfolding id_of_lable
non_log_set_regs_of ids [] = []
non_log_set_regs_of ids (r ∷ rs) =
    let rest = non_log_set_regs_of ids rs in if contains (id_of_lable r) ids then rest else r ∷ rest

abbrev row_or : Register → Option RegDef → RegDef
row_or r (some d) = d
row_or r none = record { id = 0; label = r; type = read_only; size = u16; factor = one }

-- Every register has a row, so the default of `row_or` is not used.
unfoldable pub new_nibe1155 : Nibe1155
unfolding id_map_of non_log_set_regs_of reg_def_by_lable new_nibe1155_value
new_nibe1155 = record {
  log_set_ids = log_set_ids_of_device;
  id_map = id_map_of attributes;
  values = λ r. new_nibe1155_value (row_or r (reg_def_by_lable r));
  non_log_set_regs = non_log_set_regs_of log_set_ids_of_device attributes;
  set_point_degree_minutes = undefined;
  rw_non_log_regs = [];
  read_non_log_regs_index = 0;
  read_non_log_reg_cnt = 0;
  polling_in_progress = false;
  events = [];
}

-- The setter of the set point, in whole degree minutes; it throws out of its range.
unfoldable pub set_set_point : Num → Nibe1155 → Option Nibe1155
set_set_point x s =
    if ltb_num x (num (negsuc 29999)) || ltb_num (num (pos 30000)) x
    then none
    else some (record s { set_point_degree_minutes = x })
