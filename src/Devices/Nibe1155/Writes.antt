-- ===== src/Devices/Nibe1155/Writes.antt =====
-- nibe1155.ts, the write methods. Each limits its argument, rounds it to a raw value, and puts a job for
-- it into the queue (writeRegister). An argument in a unit of the device is held in hundredths; the
-- arguments of writeHeatCurve and writeHeatOffset, which the source does not round, are whole numbers.
pub mod Limits
use rpi_atmega324_modbus_gat.Prelude.{
  ℕ, ◌+◌, ◌-◌, ◌/◌, Bool, true, false, Option, none, some, List, [], ◌∷◌, ltb, if◌then◌else◌,
}
use rpi_atmega324_modbus_gat.Prelude.Int.{ℤ, pos, negsuc, ◌*ℤ◌}
use rpi_atmega324_modbus_gat.Prelude.Num.{Num, num, map_num, min_num, max_num, eqb_num}
use rpi_atmega324_modbus_gat.Devices.Registers.{
  Register, degree_minutes, alarm_reset, heat_curve_s1, heat_offset_s1, supply_min_s1,
  supply_max_s1, own_heat_curve_p7, own_heat_curve_p6, own_heat_curve_p5, own_heat_curve_p4,
  own_heat_curve_p3, own_heat_curve_p2, own_heat_curve_p1, reg_max_supply_diff, reg_min_comp_frequ,
  reg_max_comp_frequ, operational_mode, supply_pump_mode, brine_pump_mode, dm_start_heating,
  add_heating_step, add_heating_max_power, add_heating_fuse, allow_additive_heating, allow_heating,
  stop_temp_heating, stop_temp_add_heating, dm_diff_start_add_heating, cut_off_frequ_activated2,
  cut_off_frequ_activated1, cut_off_frequ_start2, cut_off_frequ_start1, cut_off_frequ_stop2,
  cut_off_frequ_stop1,
}
use rpi_atmega324_modbus_gat.Devices.Nibe1155.{Target, register, id}

-- `Math.round` of a number in hundredths: the nearest whole number, a half up.
abbrev pub round_ℤ : ℤ → ℤ
round_ℤ (pos n) = pos ((n + 50) / 100)
round_ℤ (negsuc n) = if ltb n 50 then pos 0 else negsuc ((n + 50) / 100 - 1)

abbrev pub round : Num → Num
round = map_num round_ℤ

abbrev pub times_ten : Num → Num
times_ten = map_num (λ a. pos 10 *ℤ a)

-- `writeRegister`: the job's register and value.
abbrev pub write : Register → Num → Target × Num
write r v = (register r, v)

unfoldable pub write_degree_minutes : Num → Target × Num
write_degree_minutes x =
    write degree_minutes
      (round (min_num (num (pos 3000000)) (max_num (num (negsuc 2999999)) (times_ten x))))

unfoldable pub write_heat_temp_min : Num → Target × Num
write_heat_temp_min x =
    write supply_min_s1 (round (min_num (num (pos 70000)) (max_num (num (pos 5000)) (times_ten x))))

unfoldable pub write_heat_temp_max : Num → Target × Num
write_heat_temp_max x =
    write supply_max_s1 (round (min_num (num (pos 80000)) (max_num (num (pos 5000)) (times_ten x))))

unfoldable pub write_dm_heater_start : Num → Target × Num
write_dm_heater_start x =
    write dm_start_heating (round (min_num (num (pos 3000)) (max_num (num (negsuc 99999)) x)))

unfoldable pub write_add_heating_step : Num → Target × Num
write_add_heating_step x =
    write add_heating_step (round (min_num (num (pos 3276700)) (max_num (num (negsuc 3276799)) x)))

-- The division by ten makes the hundredths thousandths, which `round_thousandths` rounds.
abbrev pub round_thousandths : ℤ → ℤ
round_thousandths (pos n) = pos ((n + 500) / 1000)
round_thousandths (negsuc n) = if ltb n 500 then pos 0 else negsuc ((n + 500) / 1000 - 1)

unfoldable pub write_add_heater_max_power : Num → Target × Num
write_add_heater_max_power x =
    write add_heating_max_power
      (map_num round_thousandths (min_num (num (pos 600000)) (max_num (num (pos 0)) x)))

unfoldable pub write_add_heater_fuse : Num → Target × Num
write_add_heater_fuse x =
    write add_heating_fuse (round (min_num (num (pos 40000)) (max_num (num (pos 0)) x)))

unfoldable pub write_stop_temp_heating : Num → Target × Num
write_stop_temp_heating x =
    write stop_temp_heating
      (round (min_num (num (pos 40000)) (max_num (num (negsuc 19999)) (times_ten x))))

unfoldable pub write_stop_temp_additional_heating : Num → Target × Num
write_stop_temp_additional_heating x =
    write stop_temp_add_heating
      (round (min_num (num (pos 40000)) (max_num (num (negsuc 24999)) (times_ten x))))

unfoldable pub write_dm_diff_start_add_heating : Num → Target × Num
write_dm_diff_start_add_heating x =
    write dm_diff_start_add_heating
      (round (min_num (num (pos 40000)) (max_num (num (pos 10000)) x)))

unfoldable pub write_cut_off_freq1_start : Num → Target × Num
write_cut_off_freq1_start x =
    write cut_off_frequ_start1 (round (min_num (num (pos 11500)) (max_num (num (pos 1700)) x)))

unfoldable pub write_cut_off_freq1_stop : Num → Target × Num
write_cut_off_freq1_stop x =
    write cut_off_frequ_stop1 (round (min_num (num (pos 12000)) (max_num (num (pos 2200)) x)))

unfoldable pub write_cut_off_freq2_start : Num → Target × Num
write_cut_off_freq2_start x =
    write cut_off_frequ_start2 (round (min_num (num (pos 11500)) (max_num (num (pos 1700)) x)))

unfoldable pub write_cut_off_freq2_stop : Num → Target × Num
write_cut_off_freq2_stop x =
    write cut_off_frequ_stop2 (round (min_num (num (pos 12000)) (max_num (num (pos 2200)) x)))

-- These two are not rounded.
unfoldable pub write_heat_curve : Num → Target × Num
write_heat_curve x = write heat_curve_s1 (min_num (num (pos 15)) (max_num (num (pos 0)) x))

unfoldable pub write_heat_offset : Num → Target × Num
write_heat_offset x = write heat_offset_s1 (min_num (num (pos 10)) (max_num (num (negsuc 9)) x))

-- Only an upper limit.
unfoldable pub write_reg_max_supply_diff : Num → Target × Num
write_reg_max_supply_diff x =
    write reg_max_supply_diff (round (min_num (num (pos 0)) (times_ten x)))

-- The lower limit is passed to `min` and the upper one to `max`.
unfoldable pub write_reg_min_comp_frequ : Num → Target × Num
write_reg_min_comp_frequ x =
    write reg_min_comp_frequ (round (max_num (num (pos 9000)) (min_num (num (pos 1700)) x)))

unfoldable pub write_reg_max_comp_frequ : Num → Target × Num
write_reg_max_comp_frequ x =
    write reg_max_comp_frequ (round (max_num (num (pos 12000)) (min_num (num (pos 2000)) x)))

unfoldable pub write_alarm_reset : Target × Num
write_alarm_reset = write alarm_reset (num (pos 1))

-- The temperatures for which the heat curve has a point: -30, -20, -10, 0, 10, 20 and 30.
pub data CurveTemp : Type 0 where
  minus30 minus20 minus10 at_zero plus10 plus20 plus30 : CurveTemp

abbrev pub curve_point : CurveTemp → Register
curve_point minus30 = own_heat_curve_p1
curve_point minus20 = own_heat_curve_p2
curve_point minus10 = own_heat_curve_p3
curve_point at_zero = own_heat_curve_p4
curve_point plus10 = own_heat_curve_p5
curve_point plus20 = own_heat_curve_p6
curve_point plus30 = own_heat_curve_p7

unfoldable pub write_own_heat_curve_point : CurveTemp → Num → Target × Num
write_own_heat_curve_point temp x =
    write (curve_point temp) (round (min_num (num (pos 8000)) (max_num (num (pos 500)) x)))

pub data OperationMode : Type 0 where
  auto manual add_heat_only : OperationMode

unfoldable pub write_operation_mode : OperationMode → Target × Num
write_operation_mode auto = write operational_mode (num (pos 0))
write_operation_mode manual = write operational_mode (num (pos 1))
write_operation_mode add_heat_only = write operational_mode (num (pos 2))

pub data PumpMode : Type 0 where
  intermittent continous economy automatic : PumpMode

abbrev pub pump_mode_value : PumpMode → ℕ
pump_mode_value intermittent = 10
pump_mode_value continous = 20
pump_mode_value economy = 30
pump_mode_value automatic = 40

unfoldable pub write_supply_pump_mode : PumpMode → Target × Num
write_supply_pump_mode m = write supply_pump_mode (num (pos (pump_mode_value m)))

unfoldable pub write_brine_pump_mode : PumpMode → Target × Num
write_brine_pump_mode m = write brine_pump_mode (num (pos (pump_mode_value m)))

-- The methods on a mode's number throw on any other number.
abbrev one_of : List ℕ → Num → Bool
one_of [] x = false
one_of (n ∷ ns) x = let rest = one_of ns x in if eqb_num x (num (pos n)) then true else rest

unfoldable pub write_operation_mode_value : Num → Option (Target × Num)
write_operation_mode_value x =
    if one_of (0 ∷ 1 ∷ 2 ∷ []) x then some (write operational_mode x) else none

unfoldable pub write_supply_pump_mode_value : Num → Option (Target × Num)
write_supply_pump_mode_value x =
    if one_of (10 ∷ 20 ∷ 30 ∷ 40 ∷ []) x then some (write supply_pump_mode x) else none

unfoldable pub write_brine_pump_mode_value : Num → Option (Target × Num)
write_brine_pump_mode_value x =
    if one_of (10 ∷ 20 ∷ 30 ∷ 40 ∷ []) x then some (write brine_pump_mode x) else none

abbrev pub flag : Bool → Num
flag true = num (pos 1)
flag false = num (pos 0)

unfoldable pub write_allow_additive_heating : Bool → Target × Num
write_allow_additive_heating b = write allow_additive_heating (flag b)

unfoldable pub write_allow_heating : Bool → Target × Num
write_allow_heating b = write allow_heating (flag b)

unfoldable pub write_activate_cut_off_freq1 : Bool → Target × Num
write_activate_cut_off_freq1 b = write cut_off_frequ_activated1 (flag b)

unfoldable pub write_activate_cut_off_freq2 : Bool → Target × Num
write_activate_cut_off_freq2 b = write cut_off_frequ_activated2 (flag b)

unfoldable pub write_register_by_id : ℕ → Num → Target × Num
write_register_by_id i x = (id i, x)
