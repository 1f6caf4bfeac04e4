-- ===== src/Devices/Value/Changes.antt =====
-- Which changes of a value are reported: nibe1155-value.ts, isValueChanged.
use rpi_atmega324_modbus_gat.Prelude.{
  ℕ, ◌≡◌, refl, ◌≢◌, inl, inr, Bool, true, false, not, ◌&&◌, Option, none, some, arith, ◌==◌,
  if◌then◌else◌, Bool-cases, ==→eq,
}
use rpi_atmega324_modbus_gat.Prelude.Num.{Num, num, eqb_num}
use rpi_atmega324_modbus_gat.Devices.Value.{
  Date, Nibe1155Value, is_value_changed, clear_value_changed, set_raw_value, same_date, is_some,
  raw_number, scaled,
}

==_refl : (n : ℕ) → (n == n) ≡ true
==_refl n = ground arith

-- The test of isValueChanged on the old date and value and the present ones.
abbrev has_changed : Option Date → Option Date → Bool → Bool
has_changed old new same =
    if not (is_some old) then is_some new else not (same_date old new) && not same

has_changed_refl : (d : Option Date) (same : Bool) → has_changed d d same ≡ false
has_changed_refl none same = refl
has_changed_refl (some d) same = rw (==_refl d.identity) refl

-- No change is reported twice: once a change is cleared, the value counts as unchanged, also when it has
-- never been read or is NaN.
pub is_value_changed-clear_value_changed :
    (v : Nibe1155Value) → is_value_changed (clear_value_changed v) ≡ false
unfolding is_value_changed clear_value_changed
is_value_changed-clear_value_changed v = has_changed_refl v.value_at (eqb_num v.value v.value)

has_changed_new :
    (old : Option Date) (d : Date) (same : Bool)
    → ((e : Date) → old ≡ some e → e.identity ≢ d.identity)
    → has_changed old (some d) same ≡ (if is_some old then not same else true)
has_changed_new none d same h = refl
has_changed_new (some e) d same h = elim (Bool-cases (e.identity == d.identity)) [
  | inl k ↦ elim (h e refl (==→eq e.identity d.identity k)) [ ]
  | inr k ↦ rw k refl
]

-- A raw value that arrives with a Date object of its own is reported as a change exactly if it is the
-- register's first one or makes another number of it than the one before.
pub is_value_changed-set_raw_value :
    (x : Num) (at : Date) (v : Nibe1155Value)
    → ((e : Date) → v.value_at ≡ some e → e.identity ≢ at.identity)
    → is_value_changed (set_raw_value x at v) ≡ (
        if is_some v.value_at
        then not (eqb_num v.value (num (scaled v.def.factor (raw_number v.def.size x))))
        else true)
unfolding is_value_changed set_raw_value
is_value_changed-set_raw_value x at v h = has_changed_new v.value_at at _ h
