-- ===== src/Devices/HeatPump/Transitions.antt =====
-- The transitions of the state machine of heat-pump.ts.
use rpi_atmega324_modbus_gat.Prelude.{
  ℕ, ◌≡◌, refl, sym, ap, ◌⊎◌, inl, inr, Bool, true, false, not, Option, none, some, if◌then◌else◌,
}
use rpi_atmega324_modbus_gat.Prelude.{some_inj}
use rpi_atmega324_modbus_gat.Prelude.Result.{Result, ok, throw, ok_inj}
use rpi_atmega324_modbus_gat.Prelude.Action.{◌>>=◌, ◌>>◌, pure, when}
use rpi_atmega324_modbus_gat.Devices.HeatPump.{
  State, init, off, error, test, frequency, is_state, World, Fault, HeatPump, Step,
}
use rpi_atmega324_modbus_gat.Devices.HeatPump.Machine.{
  delay, handle_state_init, switch_off, handle_state_off, handle_state_error, start_frequency,
  run_frequency, handle_state_frequency, start_test, run_test, handle_state_test, handler, enter,
  handle_state_machine,
}
use rpi_atmega324_modbus_gat.Devices.HeatPump.Machine.{exit_or, Exit}
use rpi_atmega324_modbus_gat.Devices.HeatPump.Keeping.{
  >>-KeepsMode, >>-Yields, >>=-Yields, IsExit, IsStart, Yields, if-KeepsMode, if-Yields, mode,
  pure-Yields,
}
use rpi_atmega324_modbus_gat.Devices.HeatPump.Exits.{
  exit_or-Yields, run_frequency-Yields, run_test-Yields, start_frequency-Yields, start_test-Yields,
  switch_off-KeepsMode,
}

module _ (world : ℕ → World) where
  -- What a handler of the state `q` gives: the desired state, where that is another one, or an exit of `q`.
  abbrev IsResult : State → HeatPump → Option State → Type 0
  IsResult q s o = (o ≡ s.desired_state) ⊎ IsExit q o

  abbrev Handles : State → Type 0
  Handles q =
      (s : HeatPump)
      → (mode (handler world q s).1 ≡ mode s)
        × ((o : Option State) → (handler world q s).0 ≡ ok o → IsResult q s o)

  followed :
      {q : State} (b : Bool) (s : HeatPump) (m : Step (Option State))
      → Yields (IsExit q) m
      → let x = if not b then (ok s.desired_state, s) else m s in
        (mode x.1 ≡ mode s) × ((o : Option State) → x.0 ≡ ok o → IsResult q s o)
  followed true s m k = let (h, g) = k s in (h, λ o e. inr (g o e))
  followed false s m k = (refl, λ o e. inl (sym (ok_inj e)))

  -- A mode that starts where it is not the recent one, and then runs.
  started :
      (q : State) (b : Bool) (m : Step Exit) (n : Step (Option State))
      → Yields IsStart m
      → Yields (IsExit q) n
      → Yields (IsExit q) ((if b then m else pure none) >>= λ e. exit_or world e n)
  started q b m n k l =
      >>=-Yields IsStart (IsExit q) (if b then m else pure none) (λ e. exit_or world e n)
        (if-Yields IsStart b m (pure none) k (pure-Yields IsStart none (inl refl)))
        (λ e h. exit_or-Yields world q e n h l)

  handle_state_frequency-Handles : Handles frequency
  unfolding handle_state_frequency
  handle_state_frequency-Handles s =
      let t = (world s.tick).supply_temp in
      followed (is_state frequency s.desired_state) s
        ((if not (is_state frequency s.recent_state) then start_frequency world t else pure none)
          >>= λ e. exit_or world e (run_frequency world t))
        (started frequency (not (is_state frequency s.recent_state)) (start_frequency world t)
          (run_frequency world t) (start_frequency-Yields world t) (run_frequency-Yields world t))

  handle_state_test-Handles : Handles test
  unfolding handle_state_test
  handle_state_test-Handles s =
      let t = (world s.tick).supply_temp in
      followed (is_state test s.desired_state) s
        ((if not (is_state test s.recent_state) then start_test world t else pure none) >>= λ e.
          exit_or world e (run_test world t))
        (started test (not (is_state test s.recent_state)) (start_test world t) (run_test world t)
          (start_test-Yields world t) (run_test-Yields world t))

  handle_state_off-Handles : Handles off
  unfolding handle_state_off
  handle_state_off-Handles s =
      let b = not (is_state off s.recent_state) in
      followed (is_state off s.desired_state) s (when b (switch_off world) >> pure (some off)) (
        >>-Yields (IsExit off) (when b (switch_off world)) (pure (some off))
          (if-KeepsMode b (switch_off world) (pure tt) (switch_off-KeepsMode world) (λ u. refl))
          (pure-Yields (IsExit off) (some off) (inl refl)))

  handle_state_error-Handles : Handles error
  unfolding handle_state_error
  handle_state_error-Handles s =
      let b = not (is_state error s.recent_state) in
      let m = delay world >> switch_off world in
      followed (is_state error s.desired_state) s (when b m >> pure (some error)) (
        >>-Yields (IsExit error) (when b m) (pure (some error))
          (if-KeepsMode b m (pure tt)
            (>>-KeepsMode (delay world) (switch_off world) (λ u. refl) (switch_off-KeepsMode world))
            (λ u. refl))
          (pure-Yields (IsExit error) (some error) (inl refl)))

  handler-Handles : (q : State) → Handles q
  unfolding handle_state_init
  handler-Handles init s = (refl, λ o e. inl (sym (ok_inj e)))
  handler-Handles off s = handle_state_off-Handles s
  handler-Handles error s = handle_state_error-Handles s
  handler-Handles test s = handle_state_test-Handles s
  handler-Handles frequency s = handle_state_frequency-Handles s

  -- Where the machine can be after a call of handleStateMachine in the state `q`.
  abbrev pub IsNext : State → Option State → State → Type 0
  IsNext q desired p = (p ≡ q) ⊎ ((some p ≡ desired) ⊎ ((p ≡ off) ⊎ (p ≡ error)))

  entered :
      (q : State) (d : Option State) (x : Result Fault (Option State) × HeatPump)
      → mode x.1 ≡ (q, d)
      → ((o : Option State) → x.0 ≡ ok o → (o ≡ d) ⊎ IsExit q o)
      → IsNext q d (enter world x).state
  entered q d (throw e, t) h k = inl (ap (λ m. m.0) h)
  entered q d (ok none, t) h k = inl (ap (λ m. m.0) h)
  entered q d (ok (some p), t) h k = elim (k (some p) refl) [
    | inl e ↦ inr (inl e)
    | inr (inl e) ↦ inl (some_inj e)
    | inr (inr (inl e)) ↦ inr (inr (inl (some_inj e)))
    | inr (inr (inr e)) ↦ inr (inr (inr (some_inj e)))
  ]

  -- A call of handleStateMachine, when none is in progress, leaves the machine in the state it was in, in
  -- the desired one, in off or in error, whatever the sensors show and whichever writes fail.
  pub handle_state_machine-IsNext :
      (s : HeatPump)
      → s.in_progress ≡ false
      → IsNext s.state s.desired_state (handle_state_machine world s).state
  unfolding handle_state_machine
  handle_state_machine-IsNext s idle =
      let t = record s { in_progress = true } in
      let (h, k) = handler-Handles s.state t in
      rw idle (entered s.state s.desired_state (handler world s.state t) h k)
