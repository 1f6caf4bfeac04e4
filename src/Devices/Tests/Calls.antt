-- ===== src/Devices/Tests/Calls.antt =====
-- The theorems on the read methods and the actions at concrete data.
use rpi_atmega324_modbus_gat.Prelude.{
  ℕ, ◌+◌, ◌≡◌, refl, none, some, List, [], ◌∷◌, arith, ◌++◌, replicate,
}
use rpi_atmega324_modbus_gat.Prelude.Int.{pos}
use rpi_atmega324_modbus_gat.Prelude.Num.{Num, num}
use rpi_atmega324_modbus_gat.Prelude.Result.{ok}
use rpi_atmega324_modbus_gat.Devices.Registers.{supply_pump_mode}
use rpi_atmega324_modbus_gat.Devices.Value.{Date, set_raw_value}
use rpi_atmega324_modbus_gat.Devices.Nibe1155.{Nibe1155, new_nibe1155, Job, register, id}
use rpi_atmega324_modbus_gat.Devices.Nibe1155.Polling.{set_value, encoded}
use rpi_atmega324_modbus_gat.Devices.Nibe1155.RoundTrip.{read_back}
use rpi_atmega324_modbus_gat.Devices.Nibe1155.Writes.{economy, write_supply_pump_mode}
use rpi_atmega324_modbus_gat.Devices.Nibe1155.Reads.{Host, Waited}
use rpi_atmega324_modbus_gat.Devices.Nibe1155.Reads.Modes.{read_supply_pump_mode}
use rpi_atmega324_modbus_gat.Devices.Nibe1155.Reads.Decoding.{supply_mode, reads-writes}
use rpi_atmega324_modbus_gat.Devices.Actions.{
  Run, is_mode, anew, switch_heat_pump_off, set_curve0_temp, new_set_curve0_temp, array, zip,
  curve_temps,
}
use rpi_atmega324_modbus_gat.Devices.Actions.Attempts.{Outcome, execute-Outcome}
use rpi_atmega324_modbus_gat.Devices.Actions.CurvePoints.{
  new_set_curve0_temp-checked, CurveEnd, set_curve0_temp-CurveEnd,
}

-- A device that takes every write: a register reads as what was written last.
abbrev done : Date → List Job → Nibe1155 → Nibe1155
done at [] s = s
done at (x ∷ xs) s = done at xs (elim x.reg [
  | register r ↦ elim x.value [ num a ↦ set_value r (read_back (num a) at (s.values r)) s | _ ↦ s ]
  | id i ↦ s
])

abbrev after_a_second : ℕ → Nibe1155 → ℕ → Waited
after_a_second p s now = record {
  outcome = ok tt;
  nibe = record (done (record { identity = now; time = now }) s.rw_non_log_regs s) {
    rw_non_log_regs = [];
  };
  now = now + 1000;
}

abbrev noon : Date
noon = record { identity = 1; time = 43200 }

abbrev at_start : Run
at_start = record {
  host = record { nibe = new_nibe1155; now = 5000; promises = 0 };
  action = record { at = 4000; started_at = none; finished_at = none; errors = [] };
}

-- A second in which nothing but the queue changes.
abbrev quiet_second : ℕ → Nibe1155 → ℕ → Waited
quiet_second p s now = record {
  outcome = ok tt;
  nibe = record s { rw_non_log_regs = [] };
  now = now + 1000;
}

-- A device in which the supply pump was set to economy at noon, an hour ago.
abbrev economical : Host
economical = record {
  nibe =
      set_value supply_pump_mode
        (read_back (write_supply_pump_mode economy).1 noon (new_nibe1155.values supply_pump_mode))
        new_nibe1155;
  now = 46800;
  promises = 6;
}

reads-writes_example : (read_supply_pump_mode quiet_second anew economical).0 ≡ ok economy
unfolding new_nibe1155 set_raw_value
reads-writes_example =
    reads-writes quiet_second (supply_mode economy) anew economical (λ p s now held. (refl, held))
      (refl, noon, new_nibe1155.values supply_pump_mode, refl, refl)

execute-Outcome_example :
    Outcome after_a_second at_start refl
      (read_supply_pump_mode after_a_second anew)
      (is_mode economy)
      (switch_heat_pump_off after_a_second)
execute-Outcome_example = (execute-Outcome after_a_second at_start refl).1

-- 20, 30.5 and 35 degrees.
abbrev three_temps : List Num
three_temps = num (pos 2000) ∷ num (pos 3050) ∷ num (pos 3500) ∷ []

new_set_curve0_temp-checked_example :
    new_set_curve0_temp (array three_temps) ≡ ok (three_temps ++ replicate 4 (num (pos 3500)))
new_set_curve0_temp-checked_example =
    new_set_curve0_temp-checked (num (pos 2000)) (num (pos 3050) ∷ num (pos 3500) ∷ [])
      (omega arith)

set_curve0_temp-CurveEnd_example :
    CurveEnd after_a_second
      (zip curve_temps three_temps)
      (record at_start.action { started_at = some 5000 })
      (set_curve0_temp after_a_second three_temps at_start)
set_curve0_temp-CurveEnd_example = set_curve0_temp-CurveEnd after_a_second three_temps at_start refl

-- The pump is switched off at the first attempt, two calls later.
switched_off : (switch_heat_pump_off after_a_second at_start).1.action.finished_at ≡ some 7000
unfolding switch_heat_pump_off new_nibe1155 encoded set_raw_value
switched_off = refl
