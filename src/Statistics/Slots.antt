-- ===== src/Statistics/Slots.antt =====
-- statistics.ts, the class Statistics: the records of the current time slot, and the timer that closes it.
use rpi_atmega324_modbus_gat.Prelude.{
  ℕ, suc, Bool, ◌||◌, Option, none, some, List, [], ◌∷◌, ◌++◌, ◌==◌, if◌then◌else◌,
}
use rpi_atmega324_modbus_gat.Prelude.Num.{Num}
use rpi_atmega324_modbus_gat.Devices.Registers.{Register}
use rpi_atmega324_modbus_gat.Statistics.{
  MonitorRecord, StatisticsRecord, add_monitor_record, add_single_value, csv_header,
  new_statistics_record,
}

-- `lines` are the records handed to writeToCsvFile, the latest first.
pub record Statistics : Type 0 where
  pub disabled : Bool
  pub handle_monitor_record_count : ℕ
  pub history : List StatisticsRecord
  pub current : Option StatisticsRecord
  pub latest : Option MonitorRecord
  pub lines : List StatisticsRecord

abbrev current_or_new : Option StatisticsRecord → StatisticsRecord
current_or_new none = new_statistics_record csv_header (λ q. none)
current_or_new (some s) = s

unfoldable pub handle_monitor_record : MonitorRecord → Statistics → Statistics
unfolding add_monitor_record new_statistics_record
handle_monitor_record d s = record s {
  handle_monitor_record_count = suc s.handle_monitor_record_count;
  current = some (add_monitor_record d (current_or_new s.current));
  latest = some d;
}

unfoldable pub handle_single_value : Register → Num → ℕ → Statistics → Statistics
unfolding add_single_value new_statistics_record
handle_single_value q x at s = record s {
  current = some (add_single_value q x at (current_or_new s.current));
}

abbrev close_slot : Option StatisticsRecord → Statistics → Statistics
close_slot none s = s
close_slot (some c) s = record s {
  history = s.history ++ c ∷ [];
  lines = c ∷ s.lines;
  current = some (new_statistics_record csv_header c.single_values);
}

-- A slot in which no monitor record came goes on.
unfoldable pub handle_timer : Statistics → Statistics
unfolding new_statistics_record
handle_timer s =
    if s.disabled || s.handle_monitor_record_count == 0
    then s
    else close_slot s.current (record s { handle_monitor_record_count = 0 })
