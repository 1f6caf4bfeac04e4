-- ===== src/Devices/HeatPump/Overheating.antt =====
-- What the state machine of heat-pump.ts does when the condenser is too hot.
use rpi_atmega324_modbus_gat.Prelude.{ℕ, ◌≡◌, refl, true, false, Option, some}
use rpi_atmega324_modbus_gat.Prelude.Int.{pos}
use rpi_atmega324_modbus_gat.Prelude.Num.{num, leb_num}
use rpi_atmega324_modbus_gat.Devices.HeatPump.{State, off, frequency, World, HeatPump}
use rpi_atmega324_modbus_gat.Devices.HeatPump.Machine.{handle_state_machine}

-- A state of the machine between two calls of its handler.
abbrev pub IsIn : State → Option State → HeatPump → Type 0
IsIn q desired s = (s.in_progress ≡ false) × (s.state ≡ q) × (s.desired_state ≡ desired)

-- When the machine is idle in frequency mode, has been in it at the call before (so that the writes with which
-- the mode begins are done), and the mode stays desired, a condenser of 57.0 degrees or more makes it enter
-- off. But off is not what is desired, so the next call enters frequency again, and in neither of the two
-- calls is anything written: the writes with which off begins are left out.
pub overheated :
    (world : ℕ → World) (s : HeatPump)
    → IsIn frequency (some frequency) s
    → s.recent_state ≡ some frequency
    → leb_num (num (pos 5700)) (world s.tick).condensor_out_temp ≡ true
    → let t = handle_state_machine world s in
      let u = handle_state_machine world t in
      IsIn off (some frequency) t × IsIn frequency (some frequency) u × (u.commands ≡ s.commands)
unfolding handle_state_machine
overheated world s (idle, state, desired) recent hot =
    rw idle
      (rw state (rw desired (rw recent (rw hot ((refl, refl, refl), (refl, refl, refl), refl)))))
