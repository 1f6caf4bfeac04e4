-- ===== src/Devices/Nibe1155/Reads.antt =====
-- nibe1155.ts, the reads: readRegister, getRegisterValue with its age limit; Numbers has the read methods that
-- return the value of a register, Modes the ones that decode it. A call stands on the device, the clock in
-- milliseconds, and the number of promises given out so far. What happens until a promise is settled
-- (polls, other calls, the time that passes) is the parameter `wait`, of which nothing is assumed.
pub mod Numbers
pub mod Modes
pub mod Decoding
use rpi_atmega324_modbus_gat.Prelude.{
  ℕ, suc, ◌*◌, Bool, true, false, ◌&&◌, ◌||◌, Option, none, some, List, [], ◌∷◌, ◌++◌,
  if◌then◌else◌,
}
use rpi_atmega324_modbus_gat.Prelude.Int.{pos, ◌-ℤ◌}
use rpi_atmega324_modbus_gat.Prelude.Num.{Num, undefined, nan, num, ltb_num, leb_num, eqb_num}
use rpi_atmega324_modbus_gat.Prelude.Result.{Result, ok, throw}
use rpi_atmega324_modbus_gat.Prelude.Action.{Action, ◌>>=◌, ◌>>◌, lift, raise}
use rpi_atmega324_modbus_gat.Devices.Registers.{
  Register, outdoor_temp, room_temp, outdoor_temp_average, current_l1, current_l2, current_l3,
  energy_comp_and_el_heater, energy_compressor, comp_frequ_target, comp_power10_min,
  comp_number_of_starts, comp_total_operation_time, alarm, heat_curve_s1, heat_offset_s1,
  supply_min_s1, supply_max_s1, reg_max_supply_diff, reg_min_comp_frequ, reg_max_comp_frequ,
  dm_start_heating, add_heating_step, add_heating_max_power, add_heating_fuse, stop_temp_heating,
  stop_temp_add_heating, dm_diff_start_add_heating, cut_off_frequ_start2, cut_off_frequ_start1,
  cut_off_frequ_stop2, cut_off_frequ_stop1, operational_mode, supply_pump_mode, brine_pump_mode,
  allow_additive_heating, allow_heating, cut_off_frequ_activated1, cut_off_frequ_activated2,
}
use rpi_atmega324_modbus_gat.Devices.Value.{Date}
use rpi_atmega324_modbus_gat.Devices.Nibe1155.{Nibe1155, Failure, Target, register, id, Job}
use rpi_atmega324_modbus_gat.Devices.Nibe1155.Writes.{
  CurveTemp, curve_point, OperationMode, auto, manual, add_heat_only, PumpMode, intermittent,
  continous, economy, automatic,
}

pub record Host : Type 0 where
  pub nibe : Nibe1155
  pub now : ℕ
  pub promises : ℕ

-- What a call throws: `invalid id`, `illegal return value`, or what its promise was rejected with.
pub data CallFault : Type 0 where
  invalid_id : ℕ → CallFault
  illegal_value : Num → CallFault
  job_failed : Failure → CallFault

abbrev pub Call : Type 0 → Type 0
Call = Action Host CallFault

-- The state in which a promise is settled, and how.
pub record Waited : Type 0 where
  pub outcome : Result Failure (Unit {0})
  pub nibe : Nibe1155
  pub now : ℕ

-- The job that readRegister (whose value is undefined) and writeRegister push.
abbrev pub push_job : Target → Num → Host → Host
push_job t v h = record h {
  nibe = record h.nibe {
    rw_non_log_regs =
        h.nibe.rw_non_log_regs ++ record { reg = t; value = v; promise = h.promises } ∷ [];
  };
  promises = suc h.promises;
}

abbrev outcome_of : Result Failure (Unit {0}) → Result CallFault (Unit {0})
outcome_of (ok u) = ok u
outcome_of (throw e) = throw (job_failed e)

abbrev settled : Host → Waited → Result CallFault (Unit {0}) × Host
settled h w = (outcome_of w.outcome, record h { nibe = w.nibe; now = w.now })

abbrev pub is_undefined : Num → Bool
is_undefined undefined = true
is_undefined nan = false
is_undefined (num a) = false

-- The second test of getRegisterValue.
abbrev pub is_fresh : Num → Option Date → ℕ → Bool
is_fresh limit none now = false
is_fresh limit (some d) now =
    ltb_num (num (pos 0)) limit && leb_num (num (pos now -ℤ pos d.time)) limit

-- `x.value` of the register's object.
abbrev pub current_value : Register → Call Num
current_value r h = (ok (h.nibe.values r).value, h)

module _ (wait : ℕ → Nibe1155 → ℕ → Waited) where
  -- `await` of the promise of the job that is pushed.
  unfoldable pub submit : Target × Num → Call (Unit {0})
  submit (t, v) h = settled (push_job t v h) (wait h.promises (push_job t v h).nibe h.now)

  unfoldable pub read_register : Target → Call (Unit {0})
  unfolding submit
  read_register t = submit (t, undefined)

  abbrev value_within : Num → ℕ → Option Register → Call Num
  value_within limit i none h = raise (invalid_id i) h
  value_within limit i (some r) h =
      if is_undefined limit || is_fresh limit (h.nibe.values r).value_at h.now
      then current_value r h
      else (do read_register (register r); current_value r) h

  unfoldable pub get_register_value : ℕ → Num → Call Num
  unfolding read_register ◌-ℤ◌
  get_register_value i limit h = value_within limit i (h.nibe.id_map i) h

  -- readRegisterById.
  unfoldable pub read_register_by_id : ℕ → Call (Unit {0})
  unfolding read_register
  read_register_by_id i = read_register (id i)

  -- `this.getRegisterValue(this._x.id, notOlderThanMillis)` for the attribute of a register.
  abbrev pub value_of : Register → Num → Call Num
  value_of r limit h = get_register_value (h.nibe.values r).def.id limit h
