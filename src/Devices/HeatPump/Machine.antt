-- ===== src/Devices/HeatPump/Machine.antt =====
-- heat-pump.ts: the handlers of the states, and handleStateMachine.
use rpi_atmega324_modbus_gat.Prelude.{
  ℕ, zero, suc, ◌-◌, Bool, true, false, not, ◌&&◌, ◌||◌, Option, none, some, ◌∷◌, ltb, leb, ◌==◌,
  if◌then◌else◌,
}
use rpi_atmega324_modbus_gat.Prelude.Int.{pos, negsuc, ◌-ℤ◌}
use rpi_atmega324_modbus_gat.Prelude.Num.{Num, undefined, num, map2_num, ltb_num, leb_num, max_num}
use rpi_atmega324_modbus_gat.Prelude.Result.{Result, ok, throw}
use rpi_atmega324_modbus_gat.Prelude.Action.{◌>>=◌, ◌>>◌, pure, get, modify, when}
use rpi_atmega324_modbus_gat.Devices.Nibe1155.Writes.{economy, automatic}
use rpi_atmega324_modbus_gat.Devices.HeatPump.{
  State, init, off, error, test, frequency, is_state, World, Command, write_degree_minutes,
  write_heat_temp_min, write_heat_temp_max, write_brine_pump_mode, write_supply_pump_mode, Fault,
  write_failed, out_of_fuel, HeatPump, Step, add, abs_num, frequency_setpoint, next_degree_minutes,
}

abbrev pub is_running : World → Bool
is_running w = ltb_num (num (pos 0)) w.compressor_frequency

-- `t + 0.2 > setPointTemp || t - 0.2 < setPointTemp`.
abbrev pub is_off_set_point : Num → Num → Bool
is_off_set_point t x = ltb_num x (add t (pos 20)) || ltb_num (add t (negsuc 19)) x

-- `t + 1.0 > setPointTemp || t + 0.5 < setPointTemp`.
abbrev pub is_off_test_point : Num → Num → Bool
is_off_test_point t x = ltb_num x (add t (pos 100)) || ltb_num (add t (pos 50)) x

-- Where a handler returns before its end it gives the state to return.
abbrev pub Exit : Type 0
Exit = Option State

module _ (world : ℕ → World) where
  -- The sensors and the clock, as they are at present.
  abbrev pub sense : Step World
  sense s = (ok (world s.tick), s)

  -- An awaited write. Where it fails it has still been given to the queue of jobs.
  unfoldable pub command : Command → Step (Unit {0})
  command c s =
      let t = record s { tick = suc s.tick; commands = c ∷ s.commands } in
      (if (world s.tick).fails then throw write_failed else ok tt, t)

  abbrev pub delay : Step (Unit {0})
  delay s = (ok tt, record s { tick = suc s.tick })

  unfoldable pub handle_state_init : Step (Option State)
  handle_state_init s = (ok s.desired_state, s)

  -- What the states off and error do when they begin: setpoints unset, five writes.
  unfoldable pub switch_off : Step (Unit {0})
  unfolding command
  switch_off = do
    modify (λ s. record s {
      f_setpoint = undefined;
      set_point_temp = undefined;
      f_diff_change_at = none;
    })
    command (write_degree_minutes (num (pos 100)))
    command (write_heat_temp_min (num (pos 2000)))
    command (write_heat_temp_max (num (pos 2000)))
    command (write_brine_pump_mode automatic)
    command (write_supply_pump_mode economy)

  unfoldable pub handle_state_off : Step (Option State)
  unfolding switch_off
  handle_state_off s =
      if not (is_state off s.desired_state)
      then (ok s.desired_state, s)
      else (do when (not (is_state off s.recent_state)) switch_off; pure (some off)) s

  -- The alarm that is read first is only logged, and so is an error of reading it.
  unfoldable pub handle_state_error : Step (Option State)
  unfolding switch_off
  handle_state_error s =
      if not (is_state error s.desired_state)
      then (ok s.desired_state, s)
      else (do when (not (is_state error s.recent_state)) (do delay; switch_off); pure (some error))
          s

  -- One turn of `while (Date.now() - now < limit) { await delay(500); if (running) { break; } }`, and the rest.
  abbrev pub wait_turn : ℕ → ℕ → Step (Unit {0}) → Step (Unit {0})
  wait_turn begin limit rest s =
      if ltb ((world s.tick).now - begin) limit
      then (if is_running (world (suc s.tick))
          then (ok tt, record s { tick = suc s.tick })
          else rest (record s { tick = suc s.tick }))
      else (ok tt, s)

  -- The loop on fuel. Where the source would go on and there is none left, it throws what the source does not.
  unfoldable pub wait_compressor : ℕ → ℕ → ℕ → Step (Unit {0})
  wait_compressor zero begin limit = wait_turn begin limit (λ s. (throw out_of_fuel, s))
  wait_compressor (suc fuel) begin limit = wait_turn begin limit (wait_compressor fuel begin limit)

  unfoldable pub set_temperatures : Num → Step (Unit {0})
  unfolding command
  set_temperatures x = do
    modify (λ s. record s { set_point_temp = x })
    command (write_heat_temp_min x)
    command (write_heat_temp_max x)

  abbrev pub lower_degree_minutes : World → Step (Unit {0})
  lower_degree_minutes w =
      when (ltb_num (num (negsuc 5999)) w.degree_minutes)
        (command (write_degree_minutes (num (negsuc 5999))))

  abbrev pub exit_or : Exit → Step (Option State) → Step (Option State)
  exit_or (some s) m = pure (some s)
  exit_or none m = m

  abbrev pub running_or_error : World → Exit
  running_or_error w = if is_running w then none else some error

  -- 90 seconds in steps of half a second.
  unfoldable pub start_frequency : Num → Step Exit
  unfolding set_temperatures wait_compressor
  start_frequency t = if leb_num (num (pos 5500)) t then pure (some off) else (do
    command (write_heat_temp_min (num (pos 6000)))
    command (write_heat_temp_max (num (pos 6000)))
    w ← sense
    lower_degree_minutes w
    v ← sense
    wait_compressor 181 v.now 90000
    set_temperatures (add t (pos 10))
    u ← sense
    pure (running_or_error u))

  abbrev pub may_change : ℕ → Option ℕ → Bool
  may_change now none = true
  may_change now (some a) = if a == 0 then true else leb 10000 (now - a)

  abbrev pub change_degree_minutes : Num → Step (Unit {0})
  change_degree_minutes diff = do
    w ← sense
    command (write_degree_minutes (next_degree_minutes diff w.degree_minutes))
    v ← sense
    modify (λ s. record s { f_diff_change_at = some v.now })

  unfoldable pub control_frequency : Num → Step (Unit {0})
  unfolding frequency_setpoint next_degree_minutes command
  control_frequency t = do
    s ← get
    w ← sense
    let f = frequency_setpoint s.desired_frequency t w.supply_s1_temp
    modify (λ u. record u { f_setpoint = f })
    let diff = map2_num ◌-ℤ◌ w.compressor_frequency f
    when (ltb_num (num (pos 300)) (abs_num diff) && may_change w.now s.f_diff_change_at)
        (change_degree_minutes diff)

  abbrev pub hold_temperature : Num → Step (Option State)
  hold_temperature t = do
    s ← get
    when (is_off_set_point t s.set_point_temp) (set_temperatures (add t (pos 10)))
    pure (some frequency)

  unfoldable pub run_frequency : Num → Step (Option State)
  unfolding control_frequency set_temperatures
  run_frequency t = do
    w ← sense
    if leb_num (num (pos 5700)) w.condensor_out_temp
        then pure (some off)
        else (do control_frequency t; hold_temperature t)

  unfoldable pub handle_state_frequency : Step (Option State)
  unfolding start_frequency run_frequency
  handle_state_frequency s =
      let t = (world s.tick).supply_temp in
      if not (is_state frequency s.desired_state)
      then (ok s.desired_state, s)
      else (do
        e ← if not (is_state frequency s.recent_state) then start_frequency t else pure none
        exit_or e (run_frequency t))
          s

  -- 60 seconds in steps of half a second.
  unfoldable pub start_test : Num → Step Exit
  unfolding set_temperatures wait_compressor
  start_test t = do
    set_temperatures (add t (pos 200))
    w ← sense
    lower_degree_minutes w
    v ← sense
    wait_compressor 121 v.now 60000
    u ← sense
    pure (running_or_error u)

  -- Degree minutes below -100 are set to -100, those above it lowered by 10 down to -100.
  unfoldable pub adjust_degree_minutes : Step (Unit {0})
  unfolding command
  adjust_degree_minutes = do
    modify (λ s. record s { f_setpoint = undefined })
    w ← sense
    when (ltb_num w.degree_minutes (num (negsuc 9999)))
        (command (write_degree_minutes (num (negsuc 9999))))
    v ← sense
    when (ltb_num (num (negsuc 9999)) v.degree_minutes) (
        command
          (write_degree_minutes (max_num (num (negsuc 9999)) (add v.degree_minutes (negsuc 999)))))

  abbrev pub hold_test_temperature : Num → Step (Option State)
  hold_test_temperature t = do
    s ← get
    when (is_off_test_point t s.set_point_temp) (set_temperatures (add t (pos 200)))
    pure (some test)

  unfoldable pub run_test : Num → Step (Option State)
  unfolding adjust_degree_minutes set_temperatures
  run_test t = do
    w ← sense
    if leb_num (num (pos 5850)) w.condensor_out_temp
        then pure (some off)
        else (do adjust_degree_minutes; hold_test_temperature t)

  unfoldable pub handle_state_test : Step (Option State)
  unfolding start_test run_test
  handle_state_test s =
      let t = (world s.tick).supply_temp in
      if not (is_state test s.desired_state)
      then (ok s.desired_state, s)
      else (do
        e ← if not (is_state test s.recent_state) then start_test t else pure none
        exit_or e (run_test t))
          s

  abbrev pub handler : State → Step (Option State)
  handler init = handle_state_init
  handler off = handle_state_off
  handler error = handle_state_error
  handler test = handle_state_test
  handler frequency = handle_state_frequency

  -- The recent state is the state before; an undefined next state keeps the state, and so does an error,
  -- which besides keeps the recent state.
  abbrev pub enter : Result Fault (Option State) × HeatPump → HeatPump
  enter (ok (some q), s) = record s { state = q; recent_state = some s.state; in_progress = false }
  enter (ok none, s) = record s { recent_state = some s.state; in_progress = false }
  enter (throw e, s) = record s { in_progress = false }

  unfoldable pub handle_state_machine : HeatPump → HeatPump
  unfolding handle_state_init handle_state_off handle_state_error handle_state_test
      handle_state_frequency
  handle_state_machine s =
      if s.in_progress then s else enter (handler s.state (record s { in_progress = true }))
