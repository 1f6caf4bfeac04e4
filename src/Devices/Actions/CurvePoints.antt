-- ===== src/Devices/Actions/CurvePoints.antt =====
-- action-set-curve0-temp.ts: the temperatures that the constructor accepts, and the loop over the points.
use rpi_atmega324_modbus_gat.Prelude.{
  ℕ, zero, suc, ◌-◌, ◌≤◌, ◌<◌, ◌≡◌, refl, ap, ◌∙◌, ◌⊎◌, inl, inr, false, Option, none, some, List,
  [], ◌∷◌, ◌++◌, arith, ltb, if◌then◌else◌, length, replicate, Bool-cases,
}
use rpi_atmega324_modbus_gat.Prelude.Num.{Num, eqb_num}
use rpi_atmega324_modbus_gat.Prelude.Result.{Result, ok, throw}
use rpi_atmega324_modbus_gat.Prelude.Action.{continue, for_each}
use rpi_atmega324_modbus_gat.Devices.Nibe1155.{Nibe1155}
use rpi_atmega324_modbus_gat.Devices.Nibe1155.Writes.{CurveTemp, write_own_heat_curve_point}
use rpi_atmega324_modbus_gat.Devices.Nibe1155.Reads.{Waited, submit}
use rpi_atmega324_modbus_gat.Devices.Nibe1155.Reads.Numbers.{read_own_heat_curve_point}
use rpi_atmega324_modbus_gat.Devices.Actions.{
  ActionFault, action_error, ActionState, Run, finish, write_and_read, anew, wrong_number, zip,
  curve_temps, set_point_of_curve, set_curve0_temp, TempFault, out_of_range, is_out_of_range,
  push_temp, fill_temps, new_set_curve0_temp, array,
}
use rpi_atmega324_modbus_gat.Devices.Actions.Attempts.{
  with_errors, Settles, ReadBack, attempts-Settles, write_and_read-Ends,
}

-- An independent description of the accepted arrays: the first temperature out of 5 to 80 degrees, and the
-- array lengthened to seven entries by its last one.
abbrev pub first_bad : List Num → Option Num
first_bad [] = none
first_bad (t ∷ ts) = if is_out_of_range t then some t else first_bad ts

abbrev pub last_of : Num → List Num → Num
last_of t [] = t
last_of t (u ∷ us) = last_of u us

abbrev pub checked : Option Num → List Num → Result TempFault (List Num)
checked none ts = ok ts
checked (some t) ts = throw (out_of_range t)

fill_nothing :
    (n : ℕ) (last : Num)
    → is_out_of_range last ≡ false
    → fill_temps n [] last ≡ ok (replicate n last)
unfolding fill_temps
fill_nothing zero last h = refl
fill_nothing (suc n) last h = rw (h, fill_nothing n last h) refl

push_temp-checked :
    (t : Num) (o : Option Num) (ts : List Num) → push_temp t (checked o ts) ≡ checked o (t ∷ ts)
push_temp-checked t none ts = refl
push_temp-checked t (some u) ts = refl

fill_temps_lem :
    (n : ℕ) (ts : List Num) (last : Num)
    → length ts ≤ n
    → is_out_of_range last ≡ false
    → fill_temps n ts last
      ≡ checked (first_bad ts) (ts ++ replicate (n - length ts) (last_of last ts))
unfolding fill_temps
fill_temps_lem n [] last l h =
    fill_nothing n last h ∙ ap (λ (k : ℕ). ok (replicate k last)) (omega arith)
fill_temps_lem (suc n) (t ∷ ts) last l h = elim (Bool-cases (is_out_of_range t)) [
  | inl bad ↦ rw bad refl
  | inr good ↦
      let k : suc n - suc (length ts) ≡ n - length ts = omega arith in
      rw (good, k)
        (ap (push_temp t) (fill_temps_lem n ts t (omega arith) good)
          ∙ push_temp-checked t (first_bad ts) _)
]
fill_temps_lem zero (t ∷ ts) last l h = absurd (omega arith)

-- An array of one to seven temperatures is refused with its first one that is below 5 or above 80 degrees.
-- If there is none, the action gets the array lengthened to seven entries by its last one.
pub new_set_curve0_temp-checked :
    (t : Num) (ts : List Num)
    → length (t ∷ ts) ≤ 7
    → new_set_curve0_temp (array (t ∷ ts))
      ≡ checked (first_bad (t ∷ ts)) ((t ∷ ts) ++ replicate (7 - length (t ∷ ts)) (last_of t ts))
unfolding new_set_curve0_temp
new_set_curve0_temp-checked t ts l = elim (Bool-cases (is_out_of_range t)) [
  | inl bad ↦ rw (short, bad) refl
  | inr good ↦ rw short (fill_temps_lem 7 (t ∷ ts) t l good)
]
  where
    short : ltb 7 (suc (length ts)) ≡ false
    short = ground arith

module _ (wait : ℕ → Nibe1155 → ℕ → Waited) where
  -- A point is set: after fewer than three errors it was read back as the given temperature.
  abbrev pub PointSet : CurveTemp × Num → ActionState → Run → Type 0
  PointSet (temp, t) a s =
      (es : List ActionFault) × (length es < 3)
      × ReadBack (read_own_heat_curve_point wait temp anew) (λ v. eqb_num v t) (with_errors a es) s

  abbrev pub PointsSet : List (CurveTemp × Num) → ActionState → Run → Type 0
  PointsSet [] a s = s.action ≡ a
  PointsSet (p ∷ ps) a s = (mid : Run) × PointSet p a mid × PointsSet ps mid.action s

  -- The points before one of them are set, and that one failed three times: it added three errors.
  abbrev pub PointFailed : List (CurveTemp × Num) → ActionState → ActionFault → Run → Type 0
  PointFailed [] a e s = ⊥
  PointFailed (p ∷ ps) a e s =
      ((es : List ActionFault) × (length es ≡ 3)
        × (e ≡ action_error)
        × (s.action ≡ with_errors a es))
      ⊎ ((mid : Run) × PointSet p a mid × PointFailed ps mid.action e s)

  -- How the loop over points ends: all are set, or one of them failed three times.
  abbrev pub PointsEnd :
      List (CurveTemp × Num) → ActionState → Result ActionFault (Unit {0}) × Run → Type 0
  PointsEnd ps a (ok u, s) = PointsSet ps a s
  PointsEnd ps a (throw e, s) = PointFailed ps a e s

  set_point_of_curve-Settles :
      (temp : CurveTemp) (t : Num) (r : Run)
      → Settles
          (ReadBack (read_own_heat_curve_point wait temp anew) (λ v. eqb_num v t))
          3
          r.action
          (set_point_of_curve wait (temp, t) r)
  set_point_of_curve-Settles temp t r =
      attempts-Settles
        (write_and_read (submit wait (write_own_heat_curve_point temp t))
          (read_own_heat_curve_point wait temp anew) (λ v. eqb_num v t) wrong_number)
        (ReadBack (read_own_heat_curve_point wait temp anew) (λ v. eqb_num v t))
        r.action.finished_at
        (λ s k.
          write_and_read-Ends (submit wait (write_own_heat_curve_point temp t))
            (read_own_heat_curve_point wait temp anew) (λ v. eqb_num v t) wrong_number s)
        3 r refl

  later_failed :
      (p : CurveTemp × Num) (ps : List (CurveTemp × Num)) (a : ActionState) (mid : Run)
      → PointSet p a mid
      → (x : Result ActionFault (Unit {0}) × Run) → PointsEnd ps mid.action x
      → PointsEnd (p ∷ ps) a x
  later_failed p ps a mid set (ok u, s) g = (mid, set, g)
  later_failed p ps a mid set (throw e, s) g = inr (mid, set, g)

  for_each-PointsEnd :
      (ps : List (CurveTemp × Num)) (r : Run)
      → PointsEnd ps r.action (for_each ps (set_point_of_curve wait) r)
  for_each-PointsEnd [] r = refl
  for_each-PointsEnd ((temp, t) ∷ ps) r =
      after (for_each-PointsEnd ps) (set_point_of_curve wait (temp, t) r)
        (set_point_of_curve-Settles temp t r)
    where
      after :
          ((s : Run) → PointsEnd ps s.action (for_each ps (set_point_of_curve wait) s))
          → (x : Result ActionFault (Unit {0}) × Run)
          → Settles
              (ReadBack (read_own_heat_curve_point wait temp anew) (λ v. eqb_num v t))
              3
              r.action
              x
          → PointsEnd
              ((temp, t) ∷ ps)
              r.action
              (continue (λ _. for_each ps (set_point_of_curve wait)) x)
      after ih (ok u, s) g = later_failed (temp, t) ps r.action s g _ (ih s)
      after ih (throw e, s) (es, l, k, g) = inl (es, l, k, g)

  PointsSet-unfinished :
      (ps : List (CurveTemp × Num)) (a : ActionState) (s : Run)
      → PointsSet ps a s
      → s.action.finished_at ≡ a.finished_at
  PointsSet-unfinished [] a s h = ap (λ (b : ActionState). b.finished_at) h
  PointsSet-unfinished ((temp, t) ∷ ps) a s (mid, (es, l, (same, c)), h) =
      PointsSet-unfinished ps mid.action s h ∙ ap (λ (b : ActionState). b.finished_at) same

  -- How execute of ActionSetCurve0Temp ends, begun with the action `a`: every point is set and the action
  -- finished, or a point failed.
  abbrev pub CurveEnd :
      List (CurveTemp × Num) → ActionState → Result ActionFault (Unit {0}) × Run → Type 0
  CurveEnd ps a (ok u, s) =
      (mid : Run) × PointsSet ps a mid
      × (s ≡ record mid { action = record mid.action { finished_at = some mid.host.now } })
  CurveEnd ps a (throw e, s) = PointsEnd ps a (throw e, s)

  after_points :
      (ps : List (CurveTemp × Num)) (a : ActionState) (x : Result ActionFault (Unit {0}) × Run)
      → a.finished_at ≡ none
      → PointsEnd ps a x
      → CurveEnd ps a (continue (λ _. finish) x)
  unfolding finish
  after_points ps a (throw e, s) h k = k
  after_points ps a (ok u, s) h k = rw (PointsSet-unfinished ps a s k ∙ h) (s, k, refl)

  -- The execute of ActionSetCurve0Temp on an action that has not finished. If it returns, each point of the
  -- heat curve in its turn was read back as the temperature given for it, after fewer than three errors,
  -- and the action finished then. If it throws, the points before one of them were set in this way, that one
  -- then had three errors of its own, and the ActionError is thrown with the action not finished.
  pub set_curve0_temp-CurveEnd :
      (temps : List Num) (r : Run)
      → r.action.finished_at ≡ none
      → CurveEnd
          (zip curve_temps temps)
          (record r.action { started_at = some r.host.now })
          (set_curve0_temp wait temps r)
  unfolding set_curve0_temp
  set_curve0_temp-CurveEnd temps r h =
      let started : Run = record r { action = record r.action { started_at = some r.host.now } } in
      after_points (zip curve_temps temps) started.action
        (for_each (zip curve_temps temps) (set_point_of_curve wait) started) h
        (for_each-PointsEnd (zip curve_temps temps) started)
