-- ===== src/Devices/HeatPump.antt =====
-- heat-pump.ts: the state machine that steers the heat pump. Temperatures, frequencies and degree minutes
-- are held in hundredths. Every `await` gives the world a tick, at which the sensors and the clock may
-- have changed; `world` says what is read at each tick, and whether the write or read that is awaited
-- fails. The writes are those of nibe1155.ts and are recorded, the latest first.
pub mod Machine
pub mod Setpoint
pub mod Waiting
pub mod Overheating
pub mod Keeping
pub mod Exits
pub mod Transitions
use rpi_atmega324_modbus_gat.Prelude.{
  ℕ, suc, ◌+◌, ◌-◌, ◌*◌, ◌/◌, ap, Bool, true, false, not, ◌&&◌, Option, none, some, List, [], map,
  arith, ltb, leb, ◌==◌, if◌then◌else◌, set,
}
use rpi_atmega324_modbus_gat.Prelude.Int.{ℤ, pos, negsuc, ◌+ℤ◌, ◌-ℤ◌, ◌*ℤ◌}
use rpi_atmega324_modbus_gat.Prelude.Num.{
  Num, undefined, num, map_num, map2_num, ltb_num, leb_num, min_num, max_num,
}
use rpi_atmega324_modbus_gat.Prelude.Result.{ok, throw}
use rpi_atmega324_modbus_gat.Prelude.Action.{Action}
use rpi_atmega324_modbus_gat.Devices.Nibe1155.Writes.{PumpMode}

pub data State : Type 0 where
  init off error test frequency : State

abbrev pub code : State → ℕ
code init = 0
code off = 1
code error = 2
code test = 3
code frequency = 4

-- `===` with a field that may be undefined.
abbrev pub is_state : State → Option State → Bool
is_state s none = false
is_state s (some q) = code s == code q

pub record World : Type 0 where
  pub supply_temp : Num
  pub supply_s1_temp : Num
  pub condensor_out_temp : Num
  pub degree_minutes : Num
  pub compressor_frequency : Num
  pub now : ℕ
  pub fails : Bool

-- The awaited calls of nibe1155.ts.
pub data Command : Type 0 where
  write_degree_minutes write_heat_temp_min write_heat_temp_max : Num → Command
  write_brine_pump_mode write_supply_pump_mode : PumpMode → Command

pub data Fault : Type 0 where
  write_failed illegal_f_setpoint unsupported_mode already_started not_started : Fault
  out_of_fuel : Fault

-- `timer` says whether `_timer` is set and `in_progress` whether `_inProgressSince` is.
pub record HeatPump : Type 0 where
  pub state : State
  pub desired_state : Option State
  pub recent_state : Option State
  pub in_progress : Bool
  pub timer : Bool
  pub set_point_temp : Num
  pub f_diff_change_at : Option ℕ
  pub f_setpoint : Num
  pub desired_frequency : Num
  pub tick : ℕ
  pub commands : List Command

unfoldable pub new_heat_pump : HeatPump
new_heat_pump = record {
  state = init;
  desired_state = none;
  recent_state = none;
  in_progress = false;
  timer = false;
  set_point_temp = undefined;
  f_diff_change_at = none;
  f_setpoint = undefined;
  desired_frequency = num (pos 4000);
  tick = 0;
  commands = [];
}

abbrev pub Step : Type 0 → Type 0
Step = Action HeatPump Fault

unfoldable pub start : State → Step (Unit {0})
start desired s =
    if s.timer
    then (throw already_started, s)
    else (ok tt, record s { desired_state = some desired; timer = true })

-- It throws when the timer is set.
unfoldable pub stop : Step (Unit {0})
stop s = if s.timer then (throw not_started, s) else (ok tt, record s { timer = false })

-- `setDesiredMode` after its delay.
pub record Mode : Type 0 where
  pub desired_mode : State
  pub f_setpoint : Num

abbrev set_mode : State → Num → Step (Unit {0})
set_mode off f s = (ok tt, record s { desired_state = some off })
set_mode test f s = (ok tt, record s { desired_state = some test })
set_mode frequency f s = (ok tt, record s { desired_state = some frequency; desired_frequency = f })
set_mode init f s = (throw unsupported_mode, s)
set_mode error f s = (throw unsupported_mode, s)

unfoldable pub set_desired_mode : Mode → Step (Unit {0})
set_desired_mode mode s =
    if not (leb_num (num (pos 2000)) mode.f_setpoint && leb_num mode.f_setpoint (num (pos 9000)))
    then (throw illegal_f_setpoint, s)
    else set_mode mode.desired_mode mode.f_setpoint s

abbrev pub add : Num → ℤ → Num
add x a = map_num (λ b. b +ℤ a) x

-- Rounded down.
abbrev pub floor_div : ℤ → ℕ → ℤ
floor_div (pos a) n = pos (a / n)
floor_div (negsuc a) n = negsuc (a / n)

-- `Math.round(k * tV + d)` on the line from (53, f) to (56, 26), in hundredths. In exact numbers it is
-- f + (f - 26) (53 - tV) / 3.
abbrev pub on_line : ℤ → ℤ → ℤ
on_line f tv =
    pos 100 *ℤ floor_div (pos 300 *ℤ f +ℤ (f -ℤ pos 2600) *ℤ (pos 5300 -ℤ tv) +ℤ pos 15000) 30000

-- The branch to 26 Hz tests the supply temperature, the two others the flow temperature.
unfoldable pub frequency_setpoint : Num → Num → Num → Num
unfolding ◌+ℤ◌ ◌-ℤ◌ ◌*ℤ◌
frequency_setpoint f t tv =
    if ltb_num tv (num (pos 5300))
    then f
    else (if leb_num (num (pos 5600)) t then num (pos 2600) else map2_num on_line f tv)

-- The new degree minutes, when the frequency is off by `diff`.
unfoldable pub next_degree_minutes : Num → Num → Num
unfolding ◌+ℤ◌
next_degree_minutes diff dm =
    if ltb_num (num (pos 0)) diff
    then min_num (num (negsuc 99)) (add dm (pos 1000))
    else max_num (num (negsuc 34999)) (add dm (negsuc 999))

abbrev pub abs_num : Num → Num
abs_num = map_num (λ a. abs_ℤ a)
  where
    abs_ℤ : ℤ → ℤ
    abs_ℤ (pos n) = pos n
    abs_ℤ (negsuc n) = pos (suc n)
