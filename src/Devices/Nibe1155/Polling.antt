-- ===== src/Devices/Nibe1155/Polling.antt =====
-- nibe1155.ts, the polling: writeRegisterNow, readRegisterNow, parseModbusResponse, pollLogSetValues,
-- handleEventEmitter and handlePolling. `respond` is the outcome of `ModbusSerial.send` on a request, the
-- response and its time or the error, and may depend on all that happened before. The handlers that run
-- while a poll waits only add jobs at the end of the queue; here a poll runs as a whole.
pub mod Runs
pub mod Jobs
use rpi_atmega324_modbus_gat.Prelude.{
  ℕ, zero, suc, ◌+◌, ◌-◌, ◌%◌, Bool, true, false, ◌&&◌, ◌||◌, Option, none, some, List, [], ◌∷◌,
  ltb, ◌==◌, if◌then◌else◌, length, get_elem?,
}
use rpi_atmega324_modbus_gat.Prelude.Int.{pos, ◌+ℤ◌, ◌*ℤ◌}
use rpi_atmega324_modbus_gat.Prelude.Num.{Num, undefined, nan, num, map_num, ltb_num, leb_num}
use rpi_atmega324_modbus_gat.Prelude.Result.{Result, ok, throw}
use rpi_atmega324_modbus_gat.Prelude.Action.{
  Action, ◌>>=◌, ◌>>◌, pure, get, modify, lift, try_catch, for_each,
}
use rpi_atmega324_modbus_gat.Modbus.Access.{Size, u8, s8, u16, s16, u32, s32, u16_at, u32_at}
use rpi_atmega324_modbus_gat.Modbus.Frame.{ModbusAsciiFrame}
use rpi_atmega324_modbus_gat.Modbus.Request.{
  RequestFault, ModbusRequest, create_read_hold_register, create_write_multiple_hold_registers,
}
use rpi_atmega324_modbus_gat.Devices.Registers.{Register, id_of_lable, degree_minutes}
use rpi_atmega324_modbus_gat.Devices.Value.{
  Date, Nibe1155Value, set_raw_value, is_value_changed, clear_value_changed,
}
use rpi_atmega324_modbus_gat.Devices.Nibe1155.{
  Nibe1155, Failure, bad_request, Target, register, id, Job, Event, sent, changed, monitored,
  single_value, resolved, rejected, attributes,
}

abbrev pub Poll : Type 0 → Type 0
Poll = Action Nibe1155 Failure

abbrev pub emit : Event → Poll (Unit {0})
emit e = modify (λ s. record s { events = e ∷ s.events })

abbrev pub set_value : Register → Nibe1155Value → Nibe1155 → Nibe1155
set_value r v s = record s {
  values = λ q. if id_of_lable q == id_of_lable r then v else s.values q;
}

abbrev pub is_long : Size → Bool
is_long u8 = false
is_long s8 = false
is_long u16 = false
is_long s16 = false
is_long u32 = true
is_long s32 = true

-- `value < 0 ? value + 2 ^ w : value` of the signed sizes.
abbrev pub wrapped : ℕ → Num → Num
wrapped m x = if ltb_num x (num (pos 0)) then map_num (λ a. a +ℤ pos m) x else x

unfoldable pub encoded : Size → Num → Num
encoded u8 x = x
encoded u16 x = x
encoded s8 x = wrapped 0x100 x
encoded s16 x = wrapped 0x10000 x
encoded u32 x = x
encoded s32 x = wrapped 0x100000000 x

abbrev quantity_of : Size → ℕ
quantity_of size = if is_long size then 2 else 1

abbrev lifted : {A : Type 0} → Result RequestFault A → Result Failure A
lifted (ok a) = ok a
lifted (throw e) = throw (bad_request e)

-- parseModbusResponse: a register that is not in the id map is skipped, and the offset stays.
abbrev parse_entry : ModbusAsciiFrame → Date → ℕ → Option Register → Nibe1155 → Nibe1155 × ℕ
parse_entry response at offset none s = (s, offset)
parse_entry response at offset (some r) s =
    let v = s.values r in
    if is_long v.def.size
    then (set_value r (set_raw_value (u32_at response offset) at v) s, offset + 4)
    else (set_value r (set_raw_value (u16_at response offset) at v) s, offset + 2)

unfoldable pub parse_entries : ModbusAsciiFrame → Date → ℕ → ℕ → ℕ → Nibe1155 → Nibe1155
unfolding set_raw_value u16_at u32_at
parse_entries response at i zero offset s = s
parse_entries response at i (suc quantity) offset s =
    let (t, next) = parse_entry response at offset (s.id_map i) s in
    parse_entries response at (suc i) quantity next t

unfoldable pub parse_modbus_response : ℕ → ℕ → ModbusAsciiFrame → Date → Poll (Unit {0})
unfolding parse_entries
parse_modbus_response i quantity response at = modify (parse_entries response at i quantity 3)

-- The runs of consecutive ids that pollLogSetValues reads with one request: first id and quantity.
abbrev pub extend_run : ℕ → ℕ → List ℕ → List (ℕ × ℕ)
extend_run first last [] = (first, last - first + 1) ∷ []
extend_run first last (i ∷ is) =
    let longer = extend_run first i is in
    let next = extend_run i i is in
    if i == last + 1 then longer else (first, last - first + 1) ∷ next

unfoldable pub poll_runs : List ℕ → List (ℕ × ℕ)
poll_runs [] = []
poll_runs (i ∷ is) = extend_run i i is

-- handleEventEmitter.
abbrev pub changed_registers : Nibe1155 → List Register → List Register
changed_registers s [] = []
changed_registers s (r ∷ rs) =
    let rest = changed_registers s rs in if is_value_changed (s.values r) then r ∷ rest else rest

abbrev emit_change : Register → Poll (Unit {0})
emit_change r s =
    let v = s.values r in
    (
      ok tt,
      set_value r (clear_value_changed v)
          (record s { events = changed r v.value v.old_value ∷ s.events }),
    )

unfoldable pub handle_event_emitter : Poll (Unit {0})
unfolding is_value_changed clear_value_changed
handle_event_emitter s = for_each (changed_registers s attributes) emit_change s

module _ (fmt : ℕ → List ℕ) (now : ℕ)
    (respond : List Event → ModbusRequest → Result Failure (ModbusAsciiFrame × Date)) where
  -- `await this._serial.send(requ)`.
  unfoldable pub send : ModbusRequest → Poll (ModbusAsciiFrame × Date)
  send requ s = (respond s.events requ, record s { events = sent requ ∷ s.events })

  unfoldable pub write_register_now : ℕ → Num → Size → Poll (ModbusAsciiFrame × Date)
  unfolding send encoded
  write_register_now i value size = do
    requ ← lift (
        lifted (
          create_write_multiple_hold_registers fmt now (num (pos 1)) (num (pos (i + 1)))
            (quantity_of size) (encoded size value ∷ []) false))
    send requ

  unfoldable pub read_registers : ℕ → ℕ → Poll (ModbusAsciiFrame × Date)
  unfolding send parse_modbus_response
  read_registers i quantity = do
    requ ← lift (
        lifted (
          create_read_hold_register fmt now (num (pos 1)) (num (pos (i + 1))) (num (pos quantity))
            false))
    send requ

  unfoldable pub read_register_now : ℕ → Size → Poll (ModbusAsciiFrame × Date)
  unfolding read_registers
  read_register_now i size = do
    (response, at) ← read_registers i (quantity_of size)
    parse_modbus_response i 1 response at
    pure (response, at)

  -- One run; an error is only logged.
  abbrev poll_run : ℕ × ℕ → Poll (Unit {0})
  poll_run (first, quantity) =
      try_catch
        (do
          (response, at) ← read_registers first quantity
          parse_modbus_response first quantity response at)
        (λ e. pure tt)

  unfoldable pub poll_log_set_values : Poll (Unit {0})
  unfolding read_registers poll_runs handle_event_emitter
  poll_log_set_values = do
    s ← get
    for_each (poll_runs s.log_set_ids) poll_run
    handle_event_emitter
    emit monitored

  -- `reg`, with a number that is a register's id replaced by the register.
  abbrev resolve_or : ℕ → Option Register → Target
  resolve_or i none = id i
  resolve_or i (some r) = register r

  abbrev resolve_target : Nibe1155 → Target → Target
  resolve_target s (register r) = register r
  resolve_target s (id i) = resolve_or i (s.id_map i)

  abbrev target_id : Nibe1155 → Target → ℕ
  target_id s (register r) = (s.values r).def.id
  target_id s (id i) = i

  abbrev target_size : Nibe1155 → Target → Size
  target_size s (register r) = (s.values r).def.size
  target_size s (id i) = u16

  abbrev target_value : Nibe1155 → ModbusAsciiFrame → Target → Num
  target_value s response (register r) = (s.values r).value
  target_value s response (id i) = u16_at response 3

  abbrev is_read : Num → Bool
  is_read undefined = true
  is_read nan = false
  is_read (num a) = false

  abbrev run_job : Job → Target → Poll (Unit {0})
  run_job x reg s =
      let i = target_id s reg in
      let size = target_size s reg in
      (if is_read x.value
          then (do
            (response, at) ← read_register_now i size
            t ← get
            emit (single_value reg (target_value t response reg) at)
            emit (resolved x.promise))
          else (do (response, at) ← write_register_now i x.value size; emit (resolved x.promise)))
        s

  -- The first job of the queue. Its failure rejects its promise.
  abbrev next_job : List Job → Poll (Unit {0})
  next_job [] s = (ok tt, s)
  next_job (x ∷ rest) s =
      try_catch (run_job x (resolve_target s x.reg)) (λ e. emit (rejected x.promise))
        (record s { rw_non_log_regs = rest })

  abbrev read_periodic : Option Register → Poll (Unit {0})
  read_periodic none = pure tt
  read_periodic (some r) = do
    s ← get
    (response, at) ← read_register_now (s.values r).def.id (s.values r).def.size
    t ← get
    emit (single_value (register r) (t.values r).value at)

  abbrev next_periodic : Poll (Unit {0})
  next_periodic s =
      read_periodic (get_elem? s.non_log_set_regs s.read_non_log_regs_index) (record s {
        read_non_log_regs_index =
            if length s.non_log_set_regs == 0
            then 0
            else (s.read_non_log_regs_index + 1) % length s.non_log_set_regs;
      })

  abbrev has_set_point : Num → Bool
  has_set_point x = ltb_num x (num (pos 0)) || leb_num (num (pos 0)) x

  abbrev set_point_raw : Num → Num
  set_point_raw x =
      let ten = map_num (λ a. pos 10 *ℤ a) x in
      if leb_num (num (pos 0)) x then ten else map_num (λ a. pos 0x10000 +ℤ a) ten

  abbrev write_set_point : Poll (Unit {0})
  write_set_point s =
      (do
        (response, at) ←
            write_register_now (id_of_lable degree_minutes)
              (set_point_raw s.set_point_degree_minutes) (s.values degree_minutes).def.size
        pure tt)
        s

  -- One poll: the LOG.SET registers, and then one more thing.
  abbrev poll_one_more : Poll (Unit {0})
  poll_one_more s =
      if s.read_non_log_reg_cnt % 2 == 1 && has_set_point s.set_point_degree_minutes
      then write_set_point s
      else (if ltb 0 (length s.rw_non_log_regs)
          then next_job s.rw_non_log_regs s
          else next_periodic s)

  abbrev finished : {A : Type 0} → Result Failure A × Nibe1155 → Nibe1155
  finished (r, s) = record s { polling_in_progress = false }

  unfoldable pub handle_polling : Nibe1155 → Nibe1155
  unfolding poll_log_set_values read_register_now write_register_now
  handle_polling s =
      if s.polling_in_progress
      then s
      else finished (
          (do
            poll_log_set_values
            modify (λ t. record t { read_non_log_reg_cnt = suc t.read_non_log_reg_cnt })
            poll_one_more)
            (record s { polling_in_progress = true }))
