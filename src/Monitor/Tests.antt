-- ===== src/Monitor/Tests.antt =====
-- The theorems on the monitor records at concrete data.
use rpi_atmega324_modbus_gat.Prelude.{◌≡◌, refl, true}
use rpi_atmega324_modbus_gat.Prelude.Int.{negsuc}
use rpi_atmega324_modbus_gat.Prelude.Num.{num}
use rpi_atmega324_modbus_gat.Monitor.{scaled, kilo, normalise_unit, power_of_ten}
use rpi_atmega324_modbus_gat.Monitor.Rounding.{IsShown, normalise_unit-IsShown}

-- -1234.56 is shown as -1.2k.
shown_kilo : normalise_unit (num (negsuc 1234559999)) 1 true ≡ scaled (negsuc 11) 10 kilo
unfolding normalise_unit
shown_kilo = refl

normalise_unit-IsShown_example :
    IsShown (negsuc 1234559999) (power_of_ten 1) (normalise_unit (num (negsuc 1234559999)) 1 true)
normalise_unit-IsShown_example = normalise_unit-IsShown (negsuc 1234559999) 1
