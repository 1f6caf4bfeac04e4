-- ===== src/Devices/Tests/Polls.antt =====
-- The theorems on the polling at concrete data.
use rpi_atmega324_modbus_gat.Prelude.{ℕ, ◌/◌, ◌%◌, ◌≡◌, refl, false, List, [], ◌∷◌}
use rpi_atmega324_modbus_gat.Prelude.Num.{undefined}
use rpi_atmega324_modbus_gat.Prelude.Result.{Result, throw}
use rpi_atmega324_modbus_gat.Modbus.Hex.{hex_char}
use rpi_atmega324_modbus_gat.Modbus.Frame.{ModbusAsciiFrame}
use rpi_atmega324_modbus_gat.Modbus.Request.{ModbusRequest}
use rpi_atmega324_modbus_gat.Devices.Registers.{outdoor_temp}
use rpi_atmega324_modbus_gat.Devices.Value.{Date}
use rpi_atmega324_modbus_gat.Devices.Nibe1155.{
  Nibe1155, new_nibe1155, Job, Event, Failure, send_failed, register,
}
use rpi_atmega324_modbus_gat.Devices.Nibe1155.Polling.{poll_runs, handle_polling}
use rpi_atmega324_modbus_gat.Devices.Nibe1155.Polling.Runs.{
  ids_of_runs, AreMaximal, poll_runs-exact,
}
use rpi_atmega324_modbus_gat.Devices.Nibe1155.Polling.Jobs.{Settles, handle_polling-job}

poll_runs-exact_example :
    (ids_of_runs ((40008, 1) ∷ (40015, 3) ∷ []) ≡ 40008 ∷ 40015 ∷ 40016 ∷ 40017 ∷ [])
    × AreMaximal ((40008, 1) ∷ (40015, 3) ∷ [])
unfolding poll_runs
poll_runs-exact_example = poll_runs-exact (40008 ∷ 40015 ∷ 40016 ∷ 40017 ∷ [])

abbrev print_byte : ℕ → List ℕ
print_byte b = hex_char (b / 16) ∷ hex_char (b % 16) ∷ []

-- A port that never answers, and two jobs in the queue.
abbrev no_answer : List Event → ModbusRequest → Result Failure (ModbusAsciiFrame × Date)
no_answer es r = throw (send_failed 1)

abbrev job : ℕ → Job
job p = record { reg = register outdoor_temp; value = undefined; promise = p }

abbrev busy : Nibe1155
busy = record new_nibe1155 { rw_non_log_regs = job 5 ∷ job 6 ∷ [] }

handle_polling-job_example :
    let t = handle_polling print_byte 7 no_answer busy in
    (t.rw_non_log_regs ≡ job 6 ∷ [])
    × Settles print_byte 7 no_answer 5 t.events
    × (t.polling_in_progress ≡ false)
unfolding new_nibe1155
handle_polling-job_example =
    handle_polling-job print_byte 7 no_answer busy (job 5) (job 6 ∷ []) refl refl refl
