-- ===== src/Devices/HeatPump/Exits.antt =====
-- The parts of the handlers of heat-pump.ts: they leave the state and the desired state alone, and each
-- gives only certain next states.
use rpi_atmega324_modbus_gat.Prelude.{
  ℕ, zero, suc, ◌-◌, refl, inl, inr, Bool, ◌&&◌, Option, none, some, ltb, Bool-cases,
}
use rpi_atmega324_modbus_gat.Devices.Nibe1155.Writes.{economy, automatic}
use rpi_atmega324_modbus_gat.Prelude.Int.{pos, negsuc, ◌-ℤ◌}
use rpi_atmega324_modbus_gat.Prelude.Num.{Num, undefined, num, map2_num, ltb_num, leb_num, max_num}
use rpi_atmega324_modbus_gat.Prelude.Result.{ok, throw}
use rpi_atmega324_modbus_gat.Prelude.Action.{◌>>=◌, ◌>>◌, pure, modify, when}
use rpi_atmega324_modbus_gat.Devices.HeatPump.{
  State, off, test, frequency, World, out_of_fuel, write_degree_minutes, write_heat_temp_min,
  write_heat_temp_max, write_brine_pump_mode, write_supply_pump_mode, Step, add, abs_num,
  frequency_setpoint, next_degree_minutes,
}
use rpi_atmega324_modbus_gat.Devices.HeatPump.Machine.{
  sense, command, switch_off, is_running, wait_turn, wait_compressor, set_temperatures,
  start_frequency, control_frequency, is_off_set_point, run_frequency, start_test,
  adjust_degree_minutes, run_test,
}
use rpi_atmega324_modbus_gat.Devices.HeatPump.Machine.{
  lower_degree_minutes, exit_or, running_or_error, may_change, change_degree_minutes,
  hold_temperature, hold_test_temperature, is_off_test_point, Exit,
}
use rpi_atmega324_modbus_gat.Devices.HeatPump.Keeping.{
  >>-KeepsMode, >>-Yields, >>=-KeepsMode, IsExit, IsStart, KeepsMode, Yields, if-KeepsMode,
  if-Yields, if_mode, pure-Yields, sense-Yields,
}

module _ (world : ℕ → World) where
  pub exit_or-Yields :
      (q : State) (e : Option State) (m : Step (Option State))
      → IsStart e
      → Yields (IsExit q) m
      → Yields (IsExit q) (exit_or world e m)
  exit_or-Yields q none m h k = k
  exit_or-Yields q (some p) m (inl e) k = cc
  exit_or-Yields q (some p) m (inr h) k = pure-Yields (IsExit q) (some p) (inr h)

  pub set_temperatures-KeepsMode : (x : Num) → KeepsMode (set_temperatures world x)
  unfolding set_temperatures
  set_temperatures-KeepsMode x =
      let low = command world (write_heat_temp_min x) in
      let high = command world (write_heat_temp_max x) in
      let assigned : Step (Unit {0}) = modify (λ s. record s { set_point_temp = x }) in
      >>-KeepsMode assigned (low >> high) (λ s. refl)
        (>>-KeepsMode low high (λ s. refl) (λ s. refl))

  wait_turn-KeepsMode :
      (begin limit : ℕ) (rest : Step (Unit {0}))
      → KeepsMode rest
      → KeepsMode (wait_turn world begin limit rest)
  wait_turn-KeepsMode begin limit rest h s =
      let t = record s { tick = suc s.tick } in
      if_mode (ltb ((world s.tick).now - begin) limit) _ (ok tt, s)
        (if_mode (is_running (world (suc s.tick))) (ok tt, t) _ refl (h t)) refl

  pub wait_compressor-KeepsMode :
      (fuel begin limit : ℕ) → KeepsMode (wait_compressor world fuel begin limit)
  unfolding wait_compressor
  wait_compressor-KeepsMode zero begin limit =
      wait_turn-KeepsMode begin limit (λ s. (throw out_of_fuel, s)) (λ s. refl)
  wait_compressor-KeepsMode (suc fuel) begin limit =
      wait_turn-KeepsMode begin limit (wait_compressor world fuel begin limit)
        (wait_compressor-KeepsMode fuel begin limit)

  pub lower_degree_minutes-KeepsMode : (w : World) → KeepsMode (lower_degree_minutes world w)
  unfolding command
  lower_degree_minutes-KeepsMode w =
      if-KeepsMode (ltb_num (num (negsuc 5999)) w.degree_minutes)
        (command world (write_degree_minutes (num (negsuc 5999)))) (pure tt) (λ s. refl) (λ s. refl)

  -- From the degree minutes on, what the two starts have in common.
  abbrev pub rest_of_start : ℕ → ℕ → Step (Unit {0}) → Step Exit
  rest_of_start fuel limit m = do
    w ← sense world
    lower_degree_minutes world w
    v ← sense world
    wait_compressor world fuel v.now limit
    m
    u ← sense world
    pure (running_or_error world u)

  pub running_or_error-IsStart : (w : World) → IsStart (running_or_error world w)
  running_or_error-IsStart w = elim (Bool-cases (is_running w)) [
    | inl e ↦ rw e (inl refl)
    | inr e ↦ rw e (inr (inr refl))
  ]

  pub rest_of_start-Yields :
      (fuel limit : ℕ) (m : Step (Unit {0}))
      → KeepsMode m
      → Yields IsStart (rest_of_start fuel limit m)
  rest_of_start-Yields fuel limit m k =
      let result : Step Exit = sense world >>= λ u. pure (running_or_error world u) in
      let waits : World → Step Exit =
        λ v. wait_compressor world fuel v.now limit >> (m >> result) in
      let lowers : World → Step Exit =
        λ w. lower_degree_minutes world w >> (sense world >>= waits) in
      let ends : Yields IsStart result = λ s.
        let w = world s.tick in
        pure-Yields IsStart (running_or_error world w) (running_or_error-IsStart w) s in
      let waits_end : (v : World) → Yields IsStart (waits v) = λ v.
        >>-Yields IsStart (wait_compressor world fuel v.now limit) (m >> result)
          (wait_compressor-KeepsMode fuel v.now limit) (>>-Yields IsStart m result k ends) in
      let lowers_end : (w : World) → Yields IsStart (lowers w) = λ w.
        >>-Yields IsStart (lower_degree_minutes world w) (sense world >>= waits)
          (lower_degree_minutes-KeepsMode w)
          (sense-Yields IsStart (sense world) waits (λ s. refl) waits_end) in
      sense-Yields IsStart (sense world) lowers (λ s. refl) lowers_end

  pub start_frequency-Yields : (t : Num) → Yields IsStart (start_frequency world t)
  unfolding start_frequency
  start_frequency-Yields t =
      let low = command world (write_heat_temp_min (num (pos 6000))) in
      let high = command world (write_heat_temp_max (num (pos 6000))) in
      let m = set_temperatures world (add t (pos 10)) in
      let rest = rest_of_start 181 90000 m in
      if-Yields IsStart (leb_num (num (pos 5500)) t) (pure (some off)) (low >> (high >> rest))
        (pure-Yields IsStart (some off) (inr (inl refl)))
        (>>-Yields IsStart low (high >> rest) (λ s. refl)
          (>>-Yields IsStart high rest (λ s. refl)
            (rest_of_start-Yields 181 90000 m (set_temperatures-KeepsMode (add t (pos 10))))))

  pub start_test-Yields : (t : Num) → Yields IsStart (start_test world t)
  unfolding start_test
  start_test-Yields t =
      let m = set_temperatures world (add t (pos 200)) in
      >>-Yields IsStart m (rest_of_start 121 60000 (pure tt))
        (set_temperatures-KeepsMode (add t (pos 200)))
        (rest_of_start-Yields 121 60000 (pure tt) (λ s. refl))

  pub change_degree_minutes-KeepsMode : (diff : Num) → KeepsMode (change_degree_minutes world diff)
  unfolding command
  change_degree_minutes-KeepsMode diff =
      let last : Step (Unit {0}) =
        sense world >>= λ v. modify (λ s. record s { f_diff_change_at = some v.now }) in
      let write : World → Step (Unit {0}) =
        λ w. command world (write_degree_minutes (next_degree_minutes diff w.degree_minutes)) in
      >>=-KeepsMode (sense world) (λ w. write w >> last) (λ s. refl)
        (λ w. >>-KeepsMode (write w) last (λ s. refl) (λ s. refl))

  pub control_frequency-KeepsMode : (t : Num) → KeepsMode (control_frequency world t)
  unfolding control_frequency
  control_frequency-KeepsMode t s =
      let w = world s.tick in
      let f = frequency_setpoint s.desired_frequency t w.supply_s1_temp in
      let diff = map2_num ◌-ℤ◌ w.compressor_frequency f in
      if-KeepsMode
        (ltb_num (num (pos 300)) (abs_num diff) && may_change world w.now s.f_diff_change_at)
        (change_degree_minutes world diff) (pure tt) (change_degree_minutes-KeepsMode diff)
        (λ u. refl) (record s { f_setpoint = f })

  pub adjust_degree_minutes-KeepsMode : KeepsMode (adjust_degree_minutes world)
  unfolding adjust_degree_minutes
  adjust_degree_minutes-KeepsMode s =
      let w = world s.tick in
      let low = ltb_num w.degree_minutes (num (negsuc 9999)) in
      let raise_them : Step (Unit {0}) = command world (write_degree_minutes (num (negsuc 9999))) in
      let lower : World → Step (Unit {0}) = λ v.
        when (ltb_num (num (negsuc 9999)) v.degree_minutes) (
          command world (
            write_degree_minutes
              (max_num (num (negsuc 9999)) (add v.degree_minutes (negsuc 999))))) in
      >>=-KeepsMode (when low raise_them) (λ _. sense world >>= lower)
        (if-KeepsMode low raise_them (pure tt) (λ u. refl) (λ u. refl))
        (λ _.
          >>=-KeepsMode (sense world) lower (λ u. refl)
            (λ v.
              if-KeepsMode (ltb_num (num (negsuc 9999)) v.degree_minutes) _ (pure tt) (λ u. refl)
                (λ u. refl)))
        (record s { f_setpoint = undefined })

  -- The end of a round: the set point is adjusted where the test says so.
  pub hold-Yields :
      (q : State) (b : Bool) (x : Num)
      → Yields (IsExit q) (when b (set_temperatures world x) >> pure (some q))
  hold-Yields q b x =
      >>-Yields (IsExit q) (when b (set_temperatures world x)) (pure (some q))
        (if-KeepsMode b (set_temperatures world x) (pure tt) (set_temperatures-KeepsMode x)
          (λ u. refl))
        (pure-Yields (IsExit q) (some q) (inl refl))

  pub run_frequency-Yields : (t : Num) → Yields (IsExit frequency) (run_frequency world t)
  unfolding run_frequency
  run_frequency-Yields t s =
      let P = IsExit frequency in
      let m = control_frequency world t in
      let n = hold_temperature world t in
      if-Yields P (leb_num (num (pos 5700)) (world s.tick).condensor_out_temp) (pure (some off))
        (m >> n) (pure-Yields P (some off) (inr (inl refl)))
        (>>-Yields P m n (control_frequency-KeepsMode t)
          (λ u. hold-Yields frequency (is_off_set_point t u.set_point_temp) (add t (pos 10)) u))
        s

  pub run_test-Yields : (t : Num) → Yields (IsExit test) (run_test world t)
  unfolding run_test
  run_test-Yields t s =
      let P = IsExit test in
      let m = adjust_degree_minutes world in
      let n = hold_test_temperature world t in
      if-Yields P (leb_num (num (pos 5850)) (world s.tick).condensor_out_temp) (pure (some off))
        (m >> n) (pure-Yields P (some off) (inr (inl refl)))
        (>>-Yields P m n adjust_degree_minutes-KeepsMode
          (λ u. hold-Yields test (is_off_test_point t u.set_point_temp) (add t (pos 200)) u))
        s

  pub switch_off-KeepsMode : KeepsMode (switch_off world)
  unfolding switch_off
  switch_off-KeepsMode s =
      let a = command world (write_degree_minutes (num (pos 100))) in
      let b = command world (write_heat_temp_min (num (pos 2000))) in
      let c = command world (write_heat_temp_max (num (pos 2000))) in
      let d = command world (write_brine_pump_mode automatic) in
      let e = command world (write_supply_pump_mode economy) in
      let t = record s {
        f_setpoint = undefined;
        set_point_temp = undefined;
        f_diff_change_at = none;
      } in
      let k : KeepsMode (d >> e) = >>-KeepsMode d e (λ u. refl) (λ u. refl) in
      let l : KeepsMode (c >> (d >> e)) = >>-KeepsMode c (d >> e) (λ u. refl) k in
      >>-KeepsMode a (b >> (c >> (d >> e))) (λ u. refl)
        (>>-KeepsMode b (c >> (d >> e)) (λ u. refl) l) t
