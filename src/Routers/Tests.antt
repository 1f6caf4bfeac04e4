-- ===== src/Routers/Tests.antt =====
-- The theorem on the mode at a concrete request.
use rpi_atmega324_modbus_gat.Prelude.{◌≡◌, refl, true, some, [], ◌∷◌}
use rpi_atmega324_modbus_gat.Prelude.Int.{pos}
use rpi_atmega324_modbus_gat.Prelude.Num.{num}
use rpi_atmega324_modbus_gat.Users.Attribute.{Text}
use rpi_atmega324_modbus_gat.Devices.HeatPump.{frequency, HeatPump, new_heat_pump}
use rpi_atmega324_modbus_gat.Routers.Errors.{answered, refused}
use rpi_atmega324_modbus_gat.Routers.Mode.{mode, ModeBody, post_mode}
use rpi_atmega324_modbus_gat.Routers.Mode.Guard.{IsGuarded, answer_of, set_to, post_mode-IsGuarded}

abbrev one_to_four : Text
one_to_four = b'1' ∷ b'2' ∷ b'3' ∷ b'4' ∷ []

-- 40.0 Hz, with the given PIN.
abbrev at_forty : Text → ModeBody
at_forty p = record {
  has_created_at = true;
  wanted_mode = some (mode frequency);
  pin = some p;
  f_setpoint_of_body = num (pos 4000);
}

abbrev no_tick : HeatPump → HeatPump
no_tick s = s

abbrev set_forty : HeatPump
set_forty = set_to frequency (num (pos 4000)) new_heat_pump

post_mode-IsGuarded_example :
    IsGuarded no_tick
      (some one_to_four)
      true
      true
      (some (at_forty one_to_four))
      new_heat_pump
      (answered (answer_of set_forty), set_forty)
unfolding post_mode new_heat_pump
post_mode-IsGuarded_example =
    post_mode-IsGuarded no_tick (some one_to_four) true true (some (at_forty one_to_four))
      new_heat_pump

wrong_pin :
    post_mode no_tick (some one_to_four) true true (some (at_forty [])) new_heat_pump
    ≡ (refused 401 true true, new_heat_pump)
unfolding post_mode
wrong_pin = refl
