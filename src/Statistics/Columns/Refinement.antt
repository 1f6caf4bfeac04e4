-- ===== src/Statistics/Columns/Refinement.antt =====
-- A record of statistics.ts implements a list of monitor records.
use rpi_atmega324_modbus_gat.Prelude.{
  ℕ, suc, ◌+◌, ◌≡◌, refl, sym, ap, ◌∙◌, subst, false, Option, none, List, [], ◌∷◌, arith, ◌==◌,
  length,
}
use rpi_atmega324_modbus_gat.Devices.Registers.{Register}
use rpi_atmega324_modbus_gat.Statistics.{
  Item, MinMaxValue, SingleValue, StatisticsRecord, new_statistics_record, MonitorRecord,
  add_monitor_record,
}
use rpi_atmega324_modbus_gat.Statistics.Columns.{
  columns, first_time_of, last_time_of, add_monitor_records, Aligned, advance, all_advanced,
  add_columns-advance, advance-Aligned, all_advanced-advance, all_advanced-nothing,
  entries_of-Aligned, all_advanced-entries_of,
}

-- A record whose entries stand in the order of its header.
abbrev IsAligned : StatisticsRecord → Type 0
IsAligned s = Aligned s.header s.min_max_values

one_added :
    (r : MonitorRecord) (s : StatisticsRecord)
    → IsAligned s
    → (add_monitor_record r s).min_max_values ≡ advance r s.value_count s.header s.min_max_values
unfolding add_monitor_record
one_added r s h = add_columns-advance r s.value_count s.header [] s.min_max_values h

one_added-IsAligned :
    (r : MonitorRecord) (s : StatisticsRecord) → IsAligned s → IsAligned (add_monitor_record r s)
unfolding add_monitor_record
one_added-IsAligned r s h =
    subst (Aligned s.header) (sym (one_added r s h))
      (advance-Aligned r s.value_count s.header s.min_max_values h)

added_values :
    (rs : List MonitorRecord) (s : StatisticsRecord)
    → IsAligned s
    → (add_monitor_records rs s).min_max_values
      ≡ all_advanced s.header s.value_count s.min_max_values rs
unfolding add_monitor_record
added_values [] s h = all_advanced-nothing s.header s.value_count s.min_max_values h
added_values (r ∷ rs) s h =
    added_values rs (add_monitor_record r s) (one_added-IsAligned r s h)
    ∙ ap (λ (ws : List MinMaxValue). all_advanced s.header (suc s.value_count) ws rs)
        (one_added r s h)
    ∙ all_advanced-advance r rs s.value_count s.header s.min_max_values

added_count :
    (rs : List MonitorRecord) (s : StatisticsRecord)
    → (add_monitor_records rs s).value_count ≡ s.value_count + length rs
unfolding add_monitor_record
added_count [] s = omega arith
added_count (r ∷ rs) s = omega (arith, added_count rs (add_monitor_record r s))

added_last :
    (rs : List MonitorRecord) (s : StatisticsRecord)
    → (add_monitor_records rs s).last_at ≡ last_time_of s.last_at rs
unfolding add_monitor_record
added_last [] s = refl
added_last (r ∷ rs) s = added_last rs (add_monitor_record r s)

added_singles :
    (rs : List MonitorRecord) (s : StatisticsRecord)
    → (add_monitor_records rs s).single_values ≡ s.single_values
unfolding add_monitor_record
added_singles [] s = refl
added_singles (r ∷ rs) s = added_singles rs (add_monitor_record r s)

-- Once a value has come the first time stays.
first_kept :
    (rs : List MonitorRecord) (s : StatisticsRecord) (n : ℕ)
    → s.value_count ≡ suc n
    → (add_monitor_records rs s).first_at ≡ s.first_at
unfolding add_monitor_record
first_kept [] s n h = refl
first_kept (r ∷ rs) s n h =
    let started : (s.value_count == 0) ≡ false = ground arith in
    first_kept rs (add_monitor_record r s) s.value_count refl ∙ (rw started refl)

added_first :
    (rs : List MonitorRecord) (hs : List Item) (singles : Register → Option SingleValue)
    → (add_monitor_records rs (new_statistics_record hs singles)).first_at ≡ first_time_of rs
unfolding add_monitor_record new_statistics_record
added_first [] hs singles = refl
added_first (r ∷ rs) hs singles =
    first_kept rs (add_monitor_record r (new_statistics_record hs singles)) 0 refl

-- What a record stands for after some monitor records: their number, the times of the first and the last
-- one, and for each column what the values of its source make of it.
abbrev pub Represents : StatisticsRecord → List Item → List MonitorRecord → Type 0
Represents s hs rs =
    (s.min_max_values ≡ columns hs rs)
    × (s.value_count ≡ length rs)
    × (s.first_at ≡ first_time_of rs)
    × (s.last_at ≡ last_time_of none rs)

-- A new record that gets monitor records one by one represents their list, for every header: the loop over
-- the header with its running index feeds each column of minimum, maximum and average with the values of one
-- register only, in their order and with their right count. That register is the column's own, except that
-- the suction temperature's column gets the temperature of the liquid line; a column whose register the switch
-- does not know, and the entries of single values, stay as they were built. The single values of the record
-- are untouched.
pub add_monitor_records-Represents :
    (hs : List Item) (singles : Register → Option SingleValue) (rs : List MonitorRecord)
    → let s = add_monitor_records rs (new_statistics_record hs singles) in
      Represents s hs rs × (s.single_values ≡ singles)
unfolding new_statistics_record
add_monitor_records-Represents hs singles rs = (
  (
    added_values rs (new_statistics_record hs singles) (entries_of-Aligned hs)
        ∙ all_advanced-entries_of hs rs,
    omega (arith, added_count rs (new_statistics_record hs singles)),
    added_first rs hs singles,
    added_last rs (new_statistics_record hs singles),
  ),
  added_singles rs (new_statistics_record hs singles),
)
