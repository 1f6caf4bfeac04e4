-- ===== src/Statistics/Tests.antt =====
-- The theorems on statistics.ts at concrete data.
use rpi_atmega324_modbus_gat.Prelude.{ℕ, ◌≡◌, refl, false, none, some, List, [], ◌∷◌}
use rpi_atmega324_modbus_gat.Prelude.Int.{pos, negsuc}
use rpi_atmega324_modbus_gat.Prelude.Num.{nan, num}
use rpi_atmega324_modbus_gat.Devices.Registers.{brine_in_temp, suction_temp, outdoor_temp}
use rpi_atmega324_modbus_gat.Statistics.{
  MinMaxValue, no_average, fraction, handle_value, StatisticsRecord, new_statistics_record,
  csv_header, Item, cnt, min_max, single, MonitorRecord,
}
use rpi_atmega324_modbus_gat.Statistics.Slots.{Statistics, handle_timer}
use rpi_atmega324_modbus_gat.Statistics.Columns.{add_monitor_records}
use rpi_atmega324_modbus_gat.Statistics.Columns.Refinement.{
  Represents, add_monitor_records-Represents,
}
use rpi_atmega324_modbus_gat.Statistics.Range.{
  handle_values, IsRange, handle_values-IsRange, handle_timer_lem,
}

abbrev brine : MinMaxValue
brine = record { reg = brine_in_temp; min = nan; avg = no_average; max = nan }

-- 1.0, -2.5 and 3.0 degrees.
handle_values-IsRange_example :
    IsRange (num (negsuc 249)) (num (pos 300)) (pos 100 ∷ negsuc 249 ∷ pos 300 ∷ [])
unfolding handle_value
handle_values-IsRange_example =
    handle_values-IsRange brine 0 (pos 100) (negsuc 249 ∷ pos 300 ∷ []) refl refl

-- Their average is 1.5 / 3.
average_of_three :
    (handle_values brine 0 (pos 100 ∷ negsuc 249 ∷ pos 300 ∷ [])).avg ≡ fraction (pos 300) 6
unfolding handle_value
average_of_three = refl

abbrev filled : StatisticsRecord
unfolding new_statistics_record
filled = record (new_statistics_record csv_header (λ q. none)) { value_count = 3 }

abbrev running : Statistics
running = record {
  disabled = false;
  handle_monitor_record_count = 3;
  history = [];
  current = some filled;
  latest = none;
  lines = [];
}

handle_timer_lem_example :
    let t = handle_timer running in
    (t.history ≡ filled ∷ [])
    × (t.lines ≡ filled ∷ [])
    × (t.handle_monitor_record_count ≡ 0)
    × (t.current ≡ some (new_statistics_record csv_header filled.single_values))
handle_timer_lem_example = handle_timer_lem running filled 2 refl refl refl

-- Two monitor records, in which every value is the time.
abbrev short_header : List Item
short_header =
    cnt
    ∷ min_max brine_in_temp
    ∷ single brine_in_temp
    ∷ min_max suction_temp
    ∷ min_max outdoor_temp
    ∷ []

abbrev monitor_record : ℕ → MonitorRecord
monitor_record at = record { created_at = at; values = λ q. num (pos at) }

add_monitor_records-Represents_example :
    let rs = monitor_record 5 ∷ monitor_record 7 ∷ [] in
    let s = add_monitor_records rs (new_statistics_record short_header (λ q. none)) in
    Represents s short_header rs × (s.single_values ≡ (λ q. none))
add_monitor_records-Represents_example =
    add_monitor_records-Represents short_header (λ q. none)
      (monitor_record 5 ∷ monitor_record 7 ∷ [])
