-- ===== src/Devices/Nibe1155/Reads/Modes.antt =====
-- nibe1155.ts, the read methods that decode the value of a register: modes, permissions and cut-offs.
use rpi_atmega324_modbus_gat.Prelude.{ℕ, ◌*◌, Bool, true, false, List, [], ◌∷◌, if◌then◌else◌}
use rpi_atmega324_modbus_gat.Prelude.Int.{pos}
use rpi_atmega324_modbus_gat.Prelude.Num.{Num, num, eqb_num}
use rpi_atmega324_modbus_gat.Prelude.Result.{Result, ok, throw}
use rpi_atmega324_modbus_gat.Prelude.Action.{◌>>=◌, lift}
use rpi_atmega324_modbus_gat.Devices.Registers.{
  Register, operational_mode, supply_pump_mode, brine_pump_mode, allow_additive_heating,
  allow_heating, cut_off_frequ_activated1, cut_off_frequ_activated2,
}
use rpi_atmega324_modbus_gat.Devices.Nibe1155.{Nibe1155}
use rpi_atmega324_modbus_gat.Devices.Nibe1155.Writes.{
  OperationMode, auto, manual, add_heat_only, PumpMode, intermittent, continous, economy, automatic,
}
use rpi_atmega324_modbus_gat.Devices.Nibe1155.Reads.{
  Waited, Call, CallFault, illegal_value, get_register_value, value_of,
}

-- `switch (x)`: the case of the value, which is held in hundredths.
unfoldable pub switch : {A : Type 0} → List (ℕ × A) → Num → Result CallFault A
switch [] x = throw (illegal_value x)
switch ((n, a) ∷ cases) x = if eqb_num x (num (pos (n * 100))) then ok a else switch cases x

abbrev pub operational_modes : List (ℕ × OperationMode)
operational_modes = (0, auto) ∷ (1, manual) ∷ (2, add_heat_only) ∷ []

abbrev pub pump_modes : List (ℕ × PumpMode)
pump_modes = (10, intermittent) ∷ (20, continous) ∷ (30, economy) ∷ (40, automatic) ∷ []

abbrev pub booleans : List (ℕ × Bool)
booleans = (0, false) ∷ (1, true) ∷ []

-- 'activated' or 'not activated'.
pub data CutOff : Type 0 where
  activated not_activated : CutOff

abbrev pub cut_offs : List (ℕ × CutOff)
cut_offs = (0, activated) ∷ (1, not_activated) ∷ []

-- The methods whose name ends in Value: the number itself.
abbrev pub numbers : List ℕ → List (ℕ × ℕ)
numbers [] = []
numbers (n ∷ ns) = (n, n) ∷ numbers ns

module _ (wait : ℕ → Nibe1155 → ℕ → Waited) where
  abbrev pub decoded : {A : Type 0} → List (ℕ × A) → Register → Num → Call A
  decoded cases r limit = do x ← value_of wait r limit; lift (switch cases x)

  unfoldable pub read_operational_mode : Num → Call OperationMode
  unfolding get_register_value switch
  read_operational_mode = decoded operational_modes operational_mode

  unfoldable pub read_operational_mode_value : Num → Call ℕ
  unfolding get_register_value switch
  read_operational_mode_value = decoded (numbers (0 ∷ 1 ∷ 2 ∷ [])) operational_mode

  unfoldable pub read_supply_pump_mode : Num → Call PumpMode
  unfolding get_register_value switch
  read_supply_pump_mode = decoded pump_modes supply_pump_mode

  unfoldable pub read_supply_pump_mode_value : Num → Call ℕ
  unfolding get_register_value switch
  read_supply_pump_mode_value = decoded (numbers (10 ∷ 20 ∷ 30 ∷ 40 ∷ [])) supply_pump_mode

  unfoldable pub read_brine_pump_mode : Num → Call PumpMode
  unfolding get_register_value switch
  read_brine_pump_mode = decoded pump_modes brine_pump_mode

  unfoldable pub read_brine_pump_mode_value : Num → Call ℕ
  unfolding get_register_value switch
  read_brine_pump_mode_value = decoded (numbers (10 ∷ 20 ∷ 30 ∷ 40 ∷ [])) brine_pump_mode

  unfoldable pub read_is_additive_heating_allowed : Num → Call Bool
  unfolding get_register_value switch
  read_is_additive_heating_allowed = decoded booleans allow_additive_heating

  unfoldable pub read_is_additive_heating_allowed_value : Num → Call ℕ
  unfolding get_register_value switch
  read_is_additive_heating_allowed_value = decoded (numbers (0 ∷ 1 ∷ [])) allow_additive_heating

  unfoldable pub read_is_heating_allowed : Num → Call Bool
  unfolding get_register_value switch
  read_is_heating_allowed = decoded booleans allow_heating

  unfoldable pub read_is_heating_allowed_value : Num → Call ℕ
  unfolding get_register_value switch
  read_is_heating_allowed_value = decoded (numbers (0 ∷ 1 ∷ [])) allow_heating

  unfoldable pub read_is_cut_off_frequ2_activated : Num → Call CutOff
  unfolding get_register_value switch
  read_is_cut_off_frequ2_activated = decoded cut_offs cut_off_frequ_activated2

  unfoldable pub read_is_cut_off_frequ2_activated_value : Num → Call ℕ
  unfolding get_register_value switch
  read_is_cut_off_frequ2_activated_value = decoded (numbers (0 ∷ 1 ∷ [])) cut_off_frequ_activated2

  unfoldable pub read_is_cut_off_frequ1_activated : Num → Call CutOff
  unfolding get_register_value switch
  read_is_cut_off_frequ1_activated = decoded cut_offs cut_off_frequ_activated1

  -- Both cases return 0.
  unfoldable pub read_is_cut_off_frequ1_activated_value : Num → Call ℕ
  unfolding get_register_value switch
  read_is_cut_off_frequ1_activated_value = decoded ((0, 0) ∷ (1, 0) ∷ []) cut_off_frequ_activated1
