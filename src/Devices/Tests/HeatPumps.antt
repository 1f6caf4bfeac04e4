-- ===== src/Devices/Tests/HeatPumps.antt =====
-- The theorems on heat-pump.ts at concrete sensors.
use rpi_atmega324_modbus_gat.Prelude.{ℕ, ◌*◌, ◌≡◌, refl, true, false, Option, none, some, [], arith}
use rpi_atmega324_modbus_gat.Prelude.Int.{ℤ, pos, negsuc}
use rpi_atmega324_modbus_gat.Prelude.Num.{num}
use rpi_atmega324_modbus_gat.Prelude.Result.{ok}
use rpi_atmega324_modbus_gat.Devices.HeatPump.{
  State, off, frequency, World, HeatPump, next_degree_minutes,
}
use rpi_atmega324_modbus_gat.Devices.HeatPump.Machine.{
  wait_compressor, is_off_set_point, handle_state_machine,
}
use rpi_atmega324_modbus_gat.Devices.HeatPump.{new_heat_pump}
use rpi_atmega324_modbus_gat.Devices.HeatPump.Transitions.{IsNext, handle_state_machine-IsNext}
use rpi_atmega324_modbus_gat.Devices.HeatPump.Setpoint.{
  IsNear, next_degree_minutes_lem, is_off_set_point_lem,
}
use rpi_atmega324_modbus_gat.Devices.HeatPump.Waiting.{Ended, wait_compressor-Ended}
use rpi_atmega324_modbus_gat.Devices.HeatPump.Overheating.{IsIn, overheated}

-- A hot condenser, a compressor that stands still, and half a second for each tick.
abbrev hot : ℕ → World
hot n = record {
  supply_temp = num (pos 5400);
  supply_s1_temp = num (pos 5450);
  condensor_out_temp = num (pos 5800);
  degree_minutes = num (negsuc 6999);
  compressor_frequency = num (pos 0);
  now = 500 * n;
  fails = false;
}

abbrev in_state : State → State → Option State → HeatPump
unfolding new_heat_pump
in_state q d r = record new_heat_pump { state = q; desired_state = some d; recent_state = r }

next_degree_minutes_lem_example :
    (r : ℤ) × (next_degree_minutes (num (pos 500)) (num (negsuc 6999)) ≡ num r)
    × IsNear (negsuc 6999) r
next_degree_minutes_lem_example =
    next_degree_minutes_lem (pos 500) (negsuc 6999) (omega arith) (omega arith)

is_off_set_point_lem_example : is_off_set_point (num (pos 5400)) (num (pos 5410)) ≡ true
is_off_set_point_lem_example = is_off_set_point_lem (pos 5400) (pos 5410)

wait_compressor-Ended_example :
    let (r, t) = wait_compressor hot 181 0 90000 (in_state frequency frequency none) in
    (r ≡ ok tt) × Ended hot 0 90000 t
unfolding new_heat_pump
wait_compressor-Ended_example =
    wait_compressor-Ended hot 181 0 90000 (in_state frequency frequency none) (λ i h. omega arith)
      (omega arith) (omega arith)

overheated_example :
    let t = handle_state_machine hot (in_state frequency frequency (some frequency)) in
    let u = handle_state_machine hot t in
    IsIn off (some frequency) t × IsIn frequency (some frequency) u × (u.commands ≡ [])
unfolding new_heat_pump
overheated_example =
    overheated hot (in_state frequency frequency (some frequency)) (refl, refl, refl) refl refl

handle_state_machine-IsNext_example :
    IsNext hot frequency
      (some frequency)
      (handle_state_machine hot (in_state frequency frequency (some frequency))).state
unfolding new_heat_pump
handle_state_machine-IsNext_example =
    handle_state_machine-IsNext hot (in_state frequency frequency (some frequency)) refl
