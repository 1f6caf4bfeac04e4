-- ===== src/Devices/Actions.antt =====
-- devices/actions: an action writes a setting and reads it back, up to three times, until it reads what it
-- has written. Action (action.ts) keeps the times and the errors; one function for each class's execute.
-- `now` of the host is what `new Date()` gives; log output is left out.
pub mod Attempts
pub mod CurvePoints
use rpi_atmega324_modbus_gat.Prelude.{
  ℕ, zero, suc, ◌*◌, Bool, true, false, ◌||◌, Option, none, some, List, [], ◌∷◌, ◌++◌, ltb, ◌==◌,
  if◌then◌else◌, length,
}
use rpi_atmega324_modbus_gat.Prelude.Int.{pos, ◌*ℤ◌}
use rpi_atmega324_modbus_gat.Prelude.Num.{Num, num, map_num, ltb_num, eqb_num}
use rpi_atmega324_modbus_gat.Prelude.Result.{Result, ok, throw}
use rpi_atmega324_modbus_gat.Prelude.Action.{
  Action, ◌>>=◌, ◌>>◌, pure, modify, raise, try_catch, for_each,
}
use rpi_atmega324_modbus_gat.Devices.Nibe1155.{Nibe1155}
use rpi_atmega324_modbus_gat.Devices.Nibe1155.Writes.{
  CurveTemp, minus30, minus20, minus10, at_zero, plus10, plus20, plus30, PumpMode, continous,
  economy, automatic, pump_mode_value, write_supply_pump_mode, write_brine_pump_mode,
  write_heat_curve, write_own_heat_curve_point,
}
use rpi_atmega324_modbus_gat.Devices.Nibe1155.Reads.{Host, CallFault, Call, Waited, submit}
use rpi_atmega324_modbus_gat.Devices.Nibe1155.Reads.Modes.{
  read_supply_pump_mode, read_brine_pump_mode,
}
use rpi_atmega324_modbus_gat.Devices.Nibe1155.Reads.Numbers.{
  read_heat_curve, read_own_heat_curve_point,
}

-- An error of one attempt, and the ActionError with which an action ends.
pub data ActionFault : Type 0 where
  call_failed : CallFault → ActionFault
  wrong_mode : PumpMode → ActionFault
  wrong_number : Num → ActionFault
  already_finished : ActionFault
  action_error : ActionFault

-- The attributes of the class Action but `_timeoutAt`, which nothing sets.
pub record ActionState : Type 0 where
  pub at : ℕ
  pub started_at : Option ℕ
  pub finished_at : Option ℕ
  pub errors : List ActionFault

unfoldable pub new_action : ℕ → ActionState
new_action now = record { at = now; started_at = none; finished_at = none; errors = [] }

pub record Run : Type 0 where
  pub host : Host
  pub action : ActionState

abbrev pub Task : Type 0 → Type 0
Task = Action Run ActionFault

abbrev with_host :
    {A : Type 0} → ActionState → Result CallFault A × Host → Result ActionFault A × Run
with_host a (ok v, h) = (ok v, record { host = h; action = a })
with_host a (throw e, h) = (throw (call_failed e), record { host = h; action = a })

-- `await` of a call of the device.
abbrev pub on_host : {A : Type 0} → Call A → Task A
on_host m r = with_host r.action (m r.host)

unfoldable pub add_error : ActionFault → ActionState → ActionState
add_error e a = record a { errors = a.errors ++ e ∷ [] }

abbrev mark_finished : Option ℕ → Run → Result ActionFault (Unit {0}) × Run
mark_finished (some t) r = (throw already_finished, r)
mark_finished none r =
    (ok tt, record r { action = record r.action { finished_at = some r.host.now } })

-- finish, without an error to add: no caller has one.
unfoldable pub finish : Task (Unit {0})
finish r = mark_finished r.action.finished_at r

last_or_none : ActionFault → List ActionFault → ActionFault
last_or_none e [] = e
last_or_none e (f ∷ fs) = last_or_none f fs

-- The getter `error`: the last one.
unfoldable pub error : ActionState → Option ActionFault
unfolding last_or_none
error a = elim a.errors [ [] ↦ none | e ∷ es ↦ some (last_or_none e es) ]

abbrev pub start : Task (Unit {0})
start = modify (λ r. record r { action = record r.action { started_at = some r.host.now } })

abbrev pub expect : Bool → ActionFault → Task (Unit {0})
expect b e = if b then pure tt else raise e

-- `for (let cnt = 0; cnt < n; cnt++) { try { m; return } catch (err) { addError(err) } } throw ActionError`.
unfoldable pub attempts : ℕ → Task (Unit {0}) → Task (Unit {0})
unfolding add_error
attempts zero m = raise action_error
attempts (suc n) m =
    try_catch m (λ e. do modify (λ r. record r { action = add_error e r.action }); attempts n m)

-- The body of the try: write, read back, compare.
abbrev pub write_and_read :
    {A : Type 0} → Call (Unit {0}) → Call A → (A → Bool) → (A → ActionFault) → Task (Unit {0})
write_and_read write read is_right wrong = do
  on_host write
  v ← on_host read
  expect (is_right v) (wrong v)

-- The execute of the actions with one setting.
abbrev pub execute_one :
    {A : Type 0} → Call (Unit {0}) → Call A → (A → Bool) → (A → ActionFault) → Task (Unit {0})
execute_one write read is_right wrong = do
  start
  attempts 3 (do write_and_read write read is_right wrong; finish)

abbrev pub is_mode : PumpMode → PumpMode → Bool
is_mode m v = pump_mode_value v == pump_mode_value m

-- A limit of no age: the register is read anew.
abbrev pub anew : Num
anew = num (pos 0)

-- A whole number as a value of a register, in hundredths.
abbrev pub times_hundred : Num → Num
times_hundred = map_num (λ a. pos 100 *ℤ a)

-- The points of the heat curve in the order of `_temp`.
abbrev pub curve_temps : List CurveTemp
curve_temps = minus30 ∷ minus20 ∷ minus10 ∷ at_zero ∷ plus10 ∷ plus20 ∷ plus30 ∷ []

abbrev pub zip : {A B : Type 0} → List A → List B → List (A × B)
zip [] bs = []
zip (a ∷ as') [] = []
zip (a ∷ as') (b ∷ bs) = (a, b) ∷ zip as' bs

module _ (wait : ℕ → Nibe1155 → ℕ → Waited) where
  unfoldable pub switch_heat_pump_on : Task (Unit {0})
  unfolding attempts finish submit read_supply_pump_mode write_supply_pump_mode
  switch_heat_pump_on =
      execute_one (submit wait (write_supply_pump_mode continous)) (read_supply_pump_mode wait anew)
        (is_mode continous) wrong_mode

  unfoldable pub switch_heat_pump_off : Task (Unit {0})
  unfolding attempts finish submit read_supply_pump_mode write_supply_pump_mode
  switch_heat_pump_off =
      execute_one (submit wait (write_supply_pump_mode economy)) (read_supply_pump_mode wait anew)
        (is_mode economy) wrong_mode

  unfoldable pub switch_brine_pump_on : Task (Unit {0})
  unfolding attempts finish submit read_brine_pump_mode write_brine_pump_mode
  switch_brine_pump_on =
      execute_one (submit wait (write_brine_pump_mode continous)) (read_brine_pump_mode wait anew)
        (is_mode continous) wrong_mode

  unfoldable pub switch_brine_pump_off : Task (Unit {0})
  unfolding attempts finish submit read_brine_pump_mode write_brine_pump_mode
  switch_brine_pump_off =
      execute_one (submit wait (write_brine_pump_mode automatic)) (read_brine_pump_mode wait anew)
        (is_mode automatic) wrong_mode

  unfoldable pub set_curve : Num → Task (Unit {0})
  unfolding attempts finish ◌*ℤ◌ submit read_heat_curve write_heat_curve
  set_curve curve =
      execute_one (submit wait (write_heat_curve curve)) (read_heat_curve wait anew)
        (λ v. eqb_num v (times_hundred curve)) wrong_number

  -- One turn of the outer loop of ActionSetCurve0Temp.
  abbrev pub set_point_of_curve : CurveTemp × Num → Task (Unit {0})
  set_point_of_curve (temp, t) = attempts 3 (
      write_and_read (submit wait (write_own_heat_curve_point temp t))
        (read_own_heat_curve_point wait temp anew) (λ v. eqb_num v t) wrong_number)

  unfoldable pub set_curve0_temp : List Num → Task (Unit {0})
  unfolding attempts finish submit read_own_heat_curve_point write_own_heat_curve_point
  set_curve0_temp temps = do start; for_each (zip curve_temps temps) set_point_of_curve; finish

-- The constructor of ActionSetCurve0Temp: one temperature, or an array of them, in hundredths.
pub data Temps : Type 0 where
  single : Num → Temps
  array : List Num → Temps

pub data TempFault : Type 0 where
  wrong_length : ℕ → TempFault
  out_of_range : Num → TempFault

abbrev pub is_out_of_range : Num → Bool
is_out_of_range t = ltb_num t (num (pos 500)) || ltb_num (num (pos 8000)) t

abbrev pub push_temp : Num → Result TempFault (List Num) → Result TempFault (List Num)
push_temp t (ok ts) = ok (t ∷ ts)
push_temp t (throw e) = throw e

-- The loop over `i`, with what is left of the array and the last temperature.
unfoldable pub fill_temps : ℕ → List Num → Num → Result TempFault (List Num)
fill_temps zero ts last = ok []
fill_temps (suc n) [] last =
    let rest = push_temp last (fill_temps n [] last) in
    if is_out_of_range last then throw (out_of_range last) else rest
fill_temps (suc n) (t ∷ ts) last =
    let rest = push_temp t (fill_temps n ts t) in
    if is_out_of_range t then throw (out_of_range t) else rest

abbrev of_array : List Num → Result TempFault (List Num)
of_array [] = throw (wrong_length 0)
of_array (t ∷ ts) =
    if ltb 7 (length (t ∷ ts))
    then throw (wrong_length (length (t ∷ ts)))
    else fill_temps 7 (t ∷ ts) t

unfoldable pub new_set_curve0_temp : Temps → Result TempFault (List Num)
unfolding fill_temps
new_set_curve0_temp (single t) =
    if is_out_of_range t then throw (out_of_range t) else ok (t ∷ t ∷ t ∷ t ∷ t ∷ t ∷ t ∷ [])
new_set_curve0_temp (array ts) = of_array ts
