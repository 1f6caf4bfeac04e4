-- ===== src/Devices/Actions/Attempts.antt =====
-- devices/actions, the loops of attempts: how they end, and what they leave in the action.
use rpi_atmega324_modbus_gat.Prelude.{
  ℕ, zero, suc, ◌<◌, ◌≡◌, refl, sym, ap, subst, Bool, true, Option, none, some, List, [], ◌∷◌, ◌++◌,
  arith, ◌∙◌, inl, inr, length, Bool-cases,
}
use mathlib.Core.List.{append_assoc, append-nil}
use rpi_atmega324_modbus_gat.Prelude.Num.{Num, eqb_num}
use rpi_atmega324_modbus_gat.Prelude.Result.{Result, ok, throw}
use rpi_atmega324_modbus_gat.Prelude.Action.{continue, handled, modify, ◌>>=◌, ◌>>◌}
use rpi_atmega324_modbus_gat.Devices.Nibe1155.{Nibe1155}
use rpi_atmega324_modbus_gat.Devices.Nibe1155.Writes.{
  continous, economy, automatic, write_supply_pump_mode, write_brine_pump_mode, write_heat_curve,
}
use rpi_atmega324_modbus_gat.Devices.Nibe1155.Reads.{Host, CallFault, Call, Waited, submit}
use rpi_atmega324_modbus_gat.Devices.Nibe1155.Reads.Modes.{
  read_supply_pump_mode, read_brine_pump_mode,
}
use rpi_atmega324_modbus_gat.Devices.Nibe1155.Reads.Numbers.{read_heat_curve}
use rpi_atmega324_modbus_gat.Devices.Actions.{
  ActionFault, action_error, ActionState, Run, Task, with_host, on_host, add_error, finish, expect,
  attempts, write_and_read, execute_one, is_mode, anew, wrong_mode, wrong_number, times_hundred,
  switch_heat_pump_on, switch_heat_pump_off, switch_brine_pump_on, switch_brine_pump_off, set_curve,
}

abbrev pub with_errors : ActionState → List ActionFault → ActionState
with_errors a es = record a { errors = a.errors ++ es }

-- A body of the try: where it returns it ends as `Good` says of the action it began with and the state it
-- leaves; where it throws it leaves the action as it was.
abbrev pub Ends :
    (ActionState → Run → Type 0) → ActionState → Result ActionFault (Unit {0}) × Run → Type 0
Ends Good a (ok u, s) = Good a s
Ends Good a (throw e, s) = s.action ≡ a

-- The loop: fewer than `n` errors and a good attempt, or `n` errors and the ActionError.
abbrev pub Settles :
    (ActionState → Run → Type 0) → ℕ → ActionState → Result ActionFault (Unit {0}) × Run → Type 0
Settles Good n a (ok u, s) = (es : List ActionFault) × (length es < n) × Good (with_errors a es) s
Settles Good n a (throw e, s) =
    (es : List ActionFault) × (length es ≡ n) × (e ≡ action_error) × (s.action ≡ with_errors a es)

with_errors_nil : (a : ActionState) → with_errors a [] ≡ a
with_errors_nil a = ap (λ (es : List ActionFault). record a { errors = es }) (append-nil a.errors)

with_errors_cons :
    (a : ActionState) (e : ActionFault) (es : List ActionFault)
    → with_errors (add_error e a) es ≡ with_errors a (e ∷ es)
unfolding add_error
with_errors_cons a e es =
    ap (λ (fs : List ActionFault). record a { errors = fs }) (append_assoc a.errors (e ∷ []) es)

module _ (m : Task (Unit {0})) (Good : ActionState → Run → Type 0) (finished : Option ℕ)
    (step : (r : Run) → r.action.finished_at ≡ finished → Ends Good r.action (m r)) where
  one_more :
      (n : ℕ) (a : ActionState) (e : ActionFault) (x : Result ActionFault (Unit {0}) × Run)
      → Settles Good n (add_error e a) x
      → Settles Good (suc n) a x
  one_more n a e (ok u, s) (es, l, g) =
      (e ∷ es, omega arith, subst (λ b. Good b s) (with_errors_cons a e es) g)
  one_more n a e (throw f, s) (es, l, k, g) = (e ∷ es, ap suc l, k, g ∙ with_errors_cons a e es)

  pub attempts-Settles :
      (n : ℕ) (r : Run) → r.action.finished_at ≡ finished → Settles Good n r.action (attempts n m r)
  unfolding attempts
  attempts-Settles zero r h = ([], refl, refl, sym (with_errors_nil r.action))
  attempts-Settles (suc n) r h = after (attempts-Settles n) (m r) (step r h)
    where
      after :
          ((s : Run) → s.action.finished_at ≡ finished → Settles Good n s.action (attempts n m s))
          → (x : Result ActionFault (Unit {0}) × Run) → Ends Good r.action x
          → Settles Good (suc n) r.action (
              handled
                (λ e. modify (λ s. record s { action = add_error e s.action }) >> attempts n m)
                x)
      after ih (ok u, s) g =
          ([], omega arith, subst (λ b. Good b s) (sym (with_errors_nil r.action)) g)
      after ih (throw e, s) k =
          let t : Run = record s { action = add_error e s.action } in
          subst (λ b. Settles Good (suc n) b (attempts n m t)) k
            (one_more n s.action e (attempts n m t)
              (ih t (ap (λ (a : ActionState). a.finished_at) k ∙ h)))

-- The last call read the setting, and got what it should.
abbrev pub Confirmed : {A : Type 0} → Call A → (A → Bool) → Host → Type 0
Confirmed {A} read is_right h =
    (before : Host) × (v : A) × (read before ≡ (ok v, h)) × (is_right v ≡ true)

abbrev pub ReadBack : {A : Type 0} → Call A → (A → Bool) → ActionState → Run → Type 0
ReadBack read is_right a s = (s.action ≡ a) × Confirmed read is_right s.host

abbrev pub Finished : {A : Type 0} → Call A → (A → Bool) → ActionState → Run → Type 0
Finished read is_right a s =
    (s.action ≡ record a { finished_at = some s.host.now }) × Confirmed read is_right s.host

module _ {A : Type 0} (write : Call (Unit {0})) (read : Call A) (is_right : A → Bool)
    (wrong : A → ActionFault) where
  after_read :
      (a : ActionState) (h : Host) (x : Result CallFault A × Host)
      → read h ≡ x
      → Ends
          (ReadBack read is_right)
          a
          (continue (λ v. expect (is_right v) (wrong v)) (with_host a x))
  after_read a h (throw e, h') k = refl
  after_read a h (ok v, h') k = elim (Bool-cases (is_right v)) [
    | inl right ↦ rw right (refl, (h, v, k, right))
    | inr not_right ↦ rw not_right refl
  ]

  after_write :
      (a : ActionState) (x : Result CallFault (Unit {0}) × Host)
      → Ends
          (ReadBack read is_right)
          a
          (continue (λ _. on_host read >>= λ v. expect (is_right v) (wrong v)) (with_host a x))
  after_write a (throw e, h) = refl
  after_write a (ok u, h) = after_read a h (read h) refl

  pub write_and_read-Ends :
      (r : Run)
      → Ends (ReadBack read is_right) r.action (write_and_read write read is_right wrong r)
  write_and_read-Ends r = after_write r.action (write r.host)

  after_body :
      (a : ActionState) (x : Result ActionFault (Unit {0}) × Run)
      → a.finished_at ≡ none
      → Ends (ReadBack read is_right) a x
      → Ends (Finished read is_right) a (continue (λ _. finish) x)
  unfolding finish
  after_body a (throw e, s) h k = k
  after_body a (ok u, s) h (k, c) =
      rw (ap (λ (b : ActionState). b.finished_at) k ∙ h)
        (ap (λ (b : ActionState). record b { finished_at = some s.host.now }) k, c)

  pub execute_one-Settles :
      (r : Run)
      → r.action.finished_at ≡ none
      → Settles
          (Finished read is_right)
          3
          (record r.action { started_at = some r.host.now })
          (execute_one write read is_right wrong r)
  execute_one-Settles r h =
      attempts-Settles (write_and_read write read is_right wrong >> finish) (Finished read is_right)
        none
        (λ s k.
          after_body s.action (write_and_read write read is_right wrong s) k
            (write_and_read-Ends s))
        3 (record r { action = record r.action { started_at = some r.host.now } }) h

module _ (wait : ℕ → Nibe1155 → ℕ → Waited) (r : Run)
    (unfinished : r.action.finished_at ≡ none) where
  abbrev pub Outcome : {A : Type 0} → Call A → (A → Bool) → Task (Unit {0}) → Type 0
  Outcome read is_right execute =
      Settles (Finished read is_right) 3 (record r.action { started_at = some r.host.now })
        (execute r)

  -- The execute of the four switching actions and of the curve's, on an action that has not finished:
  -- either it returns, the action is finished at the time of the last call, that call read the setting
  -- and got the wanted value, and at most two errors have been added; or it throws its ActionError, and
  -- exactly three errors have been added and the action is not finished.
  pub execute-Outcome :
      Outcome (read_supply_pump_mode wait anew) (is_mode continous) (switch_heat_pump_on wait)
      × Outcome (read_supply_pump_mode wait anew) (is_mode economy) (switch_heat_pump_off wait)
      × Outcome (read_brine_pump_mode wait anew) (is_mode continous) (switch_brine_pump_on wait)
      × Outcome (read_brine_pump_mode wait anew) (is_mode automatic) (switch_brine_pump_off wait)
      × ((curve : Num)
          → Outcome
              (read_heat_curve wait anew)
              (λ v. eqb_num v (times_hundred curve))
              (set_curve wait curve))
  unfolding switch_heat_pump_on switch_heat_pump_off switch_brine_pump_on switch_brine_pump_off
      set_curve
  execute-Outcome = (
    execute_one-Settles (submit wait (write_supply_pump_mode continous))
        (read_supply_pump_mode wait anew) (is_mode continous) wrong_mode r unfinished,
    execute_one-Settles (submit wait (write_supply_pump_mode economy))
        (read_supply_pump_mode wait anew) (is_mode economy) wrong_mode r unfinished,
    execute_one-Settles (submit wait (write_brine_pump_mode continous))
        (read_brine_pump_mode wait anew) (is_mode continous) wrong_mode r unfinished,
    execute_one-Settles (submit wait (write_brine_pump_mode automatic))
        (read_brine_pump_mode wait anew) (is_mode automatic) wrong_mode r unfinished,
    λ curve.
        execute_one-Settles (submit wait (write_heat_curve curve)) (read_heat_curve wait anew)
          (λ v. eqb_num v (times_hundred curve)) wrong_number r unfinished,
  )
