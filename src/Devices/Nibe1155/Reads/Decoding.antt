-- ===== src/Devices/Nibe1155/Reads/Decoding.antt =====
-- What the read methods of nibe1155.ts return once a register holds the raw value that the write method
-- of the same setting has sent.
use rpi_atmega324_modbus_gat.Prelude.{
  ℕ, ◌≡◌, refl, ap, ◌∙◌, inl, inr, Bool, true, false, ◌||◌, Bool-cases, some, List,
}
use rpi_atmega324_modbus_gat.Prelude.Num.{Num, undefined, num}
use rpi_atmega324_modbus_gat.Prelude.Result.{Result, ok, throw, ok_inj}
use rpi_atmega324_modbus_gat.Devices.Value.{Date, Nibe1155Value, set_raw_value, scaled, raw_number}
use rpi_atmega324_modbus_gat.Devices.Nibe1155.{Nibe1155, Target, register, new_nibe1155}
use rpi_atmega324_modbus_gat.Devices.Nibe1155.Polling.{encoded}
use rpi_atmega324_modbus_gat.Devices.Nibe1155.RoundTrip.{read_back}
use rpi_atmega324_modbus_gat.Devices.Nibe1155.Writes.{
  OperationMode, auto, manual, add_heat_only, PumpMode, intermittent, continous, economy, automatic,
  write_operation_mode, write_supply_pump_mode, write_brine_pump_mode, write_allow_additive_heating,
  write_allow_heating, write_activate_cut_off_freq1, write_activate_cut_off_freq2,
}
use rpi_atmega324_modbus_gat.Devices.Nibe1155.Reads.{
  Host, Waited, CallFault, get_register_value, value_of, push_job, is_undefined, is_fresh,
}
use rpi_atmega324_modbus_gat.Devices.Nibe1155.Reads.Modes.{
  switch, decoded, pump_modes, operational_modes, booleans, cut_offs, CutOff, activated,
  not_activated, read_operational_mode, read_supply_pump_mode, read_brine_pump_mode,
  read_is_additive_heating_allowed, read_is_heating_allowed, read_is_cut_off_frequ1_activated,
  read_is_cut_off_frequ2_activated,
}
use rpi_atmega324_modbus_gat.Prelude.Action.{continue, lift}
use rpi_atmega324_modbus_gat.Devices.Registers.{
  Register, RegDef, supply_pump_mode, brine_pump_mode, operational_mode, allow_additive_heating,
  allow_heating, cut_off_frequ_activated1, cut_off_frequ_activated2,
}

-- The settings that a write method takes and a read method returns.
pub data Setting : Type 0 where
  supply_mode brine_mode : PumpMode → Setting
  operation : OperationMode → Setting
  additive_heating heating cut_off1 cut_off2 : Bool → Setting

abbrev pub setting_register : Setting → Register
setting_register (supply_mode m) = supply_pump_mode
setting_register (brine_mode m) = brine_pump_mode
setting_register (operation m) = operational_mode
setting_register (additive_heating b) = allow_additive_heating
setting_register (heating b) = allow_heating
setting_register (cut_off1 b) = cut_off_frequ_activated1
setting_register (cut_off2 b) = cut_off_frequ_activated2

-- The job of the write method.
abbrev pub job_of : Setting → Target × Num
job_of (supply_mode m) = write_supply_pump_mode m
job_of (brine_mode m) = write_brine_pump_mode m
job_of (operation m) = write_operation_mode m
job_of (additive_heating b) = write_allow_additive_heating b
job_of (heating b) = write_allow_heating b
job_of (cut_off1 b) = write_activate_cut_off_freq1 b
job_of (cut_off2 b) = write_activate_cut_off_freq2 b

-- The object of the setting's register is in the id map, has the row of its register, and was last set from
-- the raw value that the write method sent, at any time and after any values before.
abbrev pub IsHeld : Setting → Nibe1155 → Type 0
IsHeld k s =
    let r = setting_register k in
    (s.id_map (s.values r).def.id ≡ some r)
    × (at : Date) × (x : Nibe1155Value) × (x.def ≡ (new_nibe1155.values r).def)
    × (s.values r ≡ read_back (job_of k).1 at x)

-- What the value is then.
abbrev held_value : Setting → Num
held_value k =
    let d = (new_nibe1155.values (setting_register k)).def in
    num (scaled d.factor (raw_number d.size (encoded d.size (job_of k).1)))

value-held :
    (k : Setting) (s : Nibe1155) → IsHeld k s → (s.values (setting_register k)).value ≡ held_value k
unfolding set_raw_value
value-held k s (i, at, x, d, e) =
    ap (λ (v : Nibe1155Value). v.value) e
    ∙ ap (λ (q : RegDef). num (scaled q.factor (raw_number q.size (encoded q.size (job_of k).1)))) d

-- The answer to "is the cut-off activated" after writing that it is `b`.
abbrev pub opposite : Bool → CutOff
opposite true = not_activated
opposite false = activated

switched_supply_mode : (m : PumpMode) → switch pump_modes (held_value (supply_mode m)) ≡ ok m
unfolding switch write_supply_pump_mode new_nibe1155 encoded
switched_supply_mode intermittent = refl
switched_supply_mode continous = refl
switched_supply_mode economy = refl
switched_supply_mode automatic = refl

switched_brine_mode : (m : PumpMode) → switch pump_modes (held_value (brine_mode m)) ≡ ok m
unfolding switch write_brine_pump_mode new_nibe1155 encoded
switched_brine_mode intermittent = refl
switched_brine_mode continous = refl
switched_brine_mode economy = refl
switched_brine_mode automatic = refl

switched_operation :
    (m : OperationMode) → switch operational_modes (held_value (operation m)) ≡ ok m
unfolding switch write_operation_mode new_nibe1155 encoded
switched_operation auto = refl
switched_operation manual = refl
switched_operation add_heat_only = refl

switched_additive_heating : (b : Bool) → switch booleans (held_value (additive_heating b)) ≡ ok b
unfolding switch write_allow_additive_heating new_nibe1155 encoded
switched_additive_heating true = refl
switched_additive_heating false = refl

switched_heating : (b : Bool) → switch booleans (held_value (heating b)) ≡ ok b
unfolding switch write_allow_heating new_nibe1155 encoded
switched_heating true = refl
switched_heating false = refl

switched_cut_off1 : (b : Bool) → switch cut_offs (held_value (cut_off1 b)) ≡ ok (opposite b)
unfolding switch write_activate_cut_off_freq1 new_nibe1155 encoded
switched_cut_off1 true = refl
switched_cut_off1 false = refl

switched_cut_off2 : (b : Bool) → switch cut_offs (held_value (cut_off2 b)) ≡ ok (opposite b)
unfolding switch write_activate_cut_off_freq2 new_nibe1155 encoded
switched_cut_off2 true = refl
switched_cut_off2 false = refl

-- What the polls and other calls do while a read is waited for: the job succeeds, and the register
-- still holds what was written.
abbrev pub Keeps : (ℕ → Nibe1155 → ℕ → Waited) → Setting → Type 0
Keeps wait k =
    (p : ℕ) (s : Nibe1155) (now : ℕ)
    → IsHeld k s
    → ((wait p s now).outcome ≡ ok tt) × IsHeld k (wait p s now).nibe

module _ (wait : ℕ → Nibe1155 → ℕ → Waited) where
  -- The read method of a setting returns the setting; for a cut-off, the opposite.
  abbrev pub ReadsAs : Setting → Num → Host → Type 0
  ReadsAs (supply_mode m) limit h = (read_supply_pump_mode wait limit h).0 ≡ ok m
  ReadsAs (brine_mode m) limit h = (read_brine_pump_mode wait limit h).0 ≡ ok m
  ReadsAs (operation m) limit h = (read_operational_mode wait limit h).0 ≡ ok m
  ReadsAs (additive_heating b) limit h = (read_is_additive_heating_allowed wait limit h).0 ≡ ok b
  ReadsAs (heating b) limit h = (read_is_heating_allowed wait limit h).0 ≡ ok b
  ReadsAs (cut_off1 b) limit h = (read_is_cut_off_frequ1_activated wait limit h).0 ≡ ok (opposite b)
  ReadsAs (cut_off2 b) limit h = (read_is_cut_off_frequ2_activated wait limit h).0 ≡ ok (opposite b)

  fetched :
      (k : Setting) (limit : Num) (h : Host)
      → Keeps wait k
      → IsHeld k h.nibe
      → (value_of wait (setting_register k) limit h).0 ≡ ok (held_value k)
  unfolding get_register_value
  fetched k limit h keeps held =
      let r = setting_register k in
      rw held.0
        (elim (Bool-cases (is_undefined limit || is_fresh limit (h.nibe.values r).value_at h.now)) [
          | inl e ↦ rw e (ap ok (value-held k h.nibe held))
          | inr e ↦
              let t = push_job (register r) undefined h in
              let (done, still) = keeps h.promises t.nibe h.now held in
              rw e (rw done (ap ok (value-held k (wait h.promises t.nibe h.now).nibe still)))
        ])

  after_value :
      {A : Type 0} (cases : List (ℕ × A)) (x : Result CallFault Num × Host) (v : Num)
      → x.0 ≡ ok v
      → (continue (λ y. lift (switch cases y)) x).0 ≡ switch cases v
  after_value cases (ok u, s) v e = ap (switch cases) (ok_inj e)
  after_value cases (throw f, s) v e = cc

  decoded_lem :
      {A : Type 0} (cases : List (ℕ × A)) (k : Setting) (limit : Num) (h : Host) {a : A}
      → Keeps wait k
      → IsHeld k h.nibe
      → switch cases (held_value k) ≡ ok a
      → (decoded wait cases (setting_register k) limit h).0 ≡ ok a
  decoded_lem cases k limit h keeps held e =
      after_value cases (value_of wait (setting_register k) limit h) (held_value k)
        (fetched k limit h keeps held)
      ∙ e

  -- The object of a register holds the raw value that the write method of a setting has sent, in a device in any
  -- other state and with any limit of age. If the value at hand is too old, the read method waits for a new
  -- reading, which is to succeed and to find the same raw value again, whatever else it changes (`Keeps`). Then
  -- the read method returns the mode of the supply pump, the brine pump and the operation, and the permissions of
  -- heating and additive heating, as they were written. For the two cut-offs it returns the opposite:
  -- 'not activated' after true was written, 'activated' after false.
  pub reads-writes :
      (k : Setting) (limit : Num) (h : Host) → Keeps wait k → IsHeld k h.nibe → ReadsAs k limit h
  unfolding read_supply_pump_mode read_brine_pump_mode read_operational_mode
      read_is_additive_heating_allowed read_is_heating_allowed read_is_cut_off_frequ1_activated
      read_is_cut_off_frequ2_activated
  reads-writes (supply_mode m) limit h keeps held =
      decoded_lem pump_modes (supply_mode m) limit h keeps held (switched_supply_mode m)
  reads-writes (brine_mode m) limit h keeps held =
      decoded_lem pump_modes (brine_mode m) limit h keeps held (switched_brine_mode m)
  reads-writes (operation m) limit h keeps held =
      decoded_lem operational_modes (operation m) limit h keeps held (switched_operation m)
  reads-writes (additive_heating b) limit h keeps held =
      decoded_lem booleans (additive_heating b) limit h keeps held (switched_additive_heating b)
  reads-writes (heating b) limit h keeps held =
      decoded_lem booleans (heating b) limit h keeps held (switched_heating b)
  reads-writes (cut_off1 b) limit h keeps held =
      decoded_lem cut_offs (cut_off1 b) limit h keeps held (switched_cut_off1 b)
  reads-writes (cut_off2 b) limit h keeps held =
      decoded_lem cut_offs (cut_off2 b) limit h keeps held (switched_cut_off2 b)
