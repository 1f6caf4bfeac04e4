-- ===== src/Statistics/Columns.antt =====
-- A record of statistics.ts as a view on the monitor records that came in: the loop over the header and its
-- index do for each column what the column's own values ask for.
pub mod Sources
pub mod Refinement
use rpi_atmega324_modbus_gat.Prelude.{
  ℕ, suc, ◌+◌, ◌≡◌, refl, sym, ap, ◌∙◌, Bool, true, false, Option, none, some, List, [], ◌∷◌, ◌++◌,
  arith, ◌==◌, if◌then◌else◌, length, length-append, get_elem?, set,
}
use mathlib.Core.List.{append_assoc}
use rpi_atmega324_modbus_gat.Prelude.Num.{Num}
use rpi_atmega324_modbus_gat.Devices.Registers.{Register, id_of_lable}
use rpi_atmega324_modbus_gat.Statistics.{
  Item, cnt, first_time, last_time, min_max, single, MinMaxValue, fresh, handle_value, entries_of,
  StatisticsRecord, SingleValue, new_statistics_record, MonitorRecord, column_value, entry_of,
  entry_with, add_columns, add_monitor_record,
}
use rpi_atmega324_modbus_gat.Statistics.Columns.Sources.{
  source_of, value_from, column_value-source_of,
}

-- The description: what a column becomes by the values of its source, and the columns of a header.
abbrev pub fed : MinMaxValue → ℕ → Option Num → MinMaxValue
fed v n none = v
fed v n (some x) = handle_value v n x

unfoldable pub summary : Register → ℕ → MinMaxValue → List MonitorRecord → MinMaxValue
unfolding handle_value
summary q n v [] = v
summary q n v (r ∷ rs) = summary q (suc n) (fed v n (value_from r (source_of q))) rs

abbrev pub columns : List Item → List MonitorRecord → List MinMaxValue
columns [] rs = []
columns (cnt ∷ hs) rs = columns hs rs
columns (first_time ∷ hs) rs = columns hs rs
columns (last_time ∷ hs) rs = columns hs rs
columns (min_max q ∷ hs) rs = summary q 0 (fresh q) rs ∷ columns hs rs
columns (single q ∷ hs) rs = fresh q ∷ columns hs rs

abbrev pub first_time_of : List MonitorRecord → Option ℕ
first_time_of [] = none
first_time_of (r ∷ rs) = some r.created_at

abbrev pub last_time_of : Option ℕ → List MonitorRecord → Option ℕ
last_time_of t [] = t
last_time_of t (r ∷ rs) = last_time_of (some r.created_at) rs

abbrev pub add_monitor_records : List MonitorRecord → StatisticsRecord → StatisticsRecord
add_monitor_records [] s = s
add_monitor_records (r ∷ rs) s = add_monitor_records rs (add_monitor_record r s)

-- Entries that stand in the order of the header.
abbrev Aligned : List Item → List MinMaxValue → Type 0
Aligned [] ws = Unit {0}
Aligned (cnt ∷ hs) ws = Aligned hs ws
Aligned (first_time ∷ hs) ws = Aligned hs ws
Aligned (last_time ∷ hs) ws = Aligned hs ws
Aligned (min_max q ∷ hs) [] = ⊥
Aligned (min_max q ∷ hs) (w ∷ ws) = (w.reg ≡ q) × Aligned hs ws
Aligned (single q ∷ hs) [] = ⊥
Aligned (single q ∷ hs) (w ∷ ws) = Aligned hs ws

-- One monitor record, entry by entry.
abbrev advance : MonitorRecord → ℕ → List Item → List MinMaxValue → List MinMaxValue
advance r n [] ws = ws
advance r n (cnt ∷ hs) ws = advance r n hs ws
advance r n (first_time ∷ hs) ws = advance r n hs ws
advance r n (last_time ∷ hs) ws = advance r n hs ws
advance r n (min_max q ∷ hs) [] = []
advance r n (min_max q ∷ hs) (w ∷ ws) = fed w n (column_value r q) ∷ advance r n hs ws
advance r n (single q ∷ hs) [] = []
advance r n (single q ∷ hs) (w ∷ ws) = w ∷ advance r n hs ws

-- What a list of monitor records makes of entries.
abbrev all_advanced : List Item → ℕ → List MinMaxValue → List MonitorRecord → List MinMaxValue
all_advanced [] n ws rs = ws
all_advanced (cnt ∷ hs) n ws rs = all_advanced hs n ws rs
all_advanced (first_time ∷ hs) n ws rs = all_advanced hs n ws rs
all_advanced (last_time ∷ hs) n ws rs = all_advanced hs n ws rs
all_advanced (min_max q ∷ hs) n [] rs = []
all_advanced (min_max q ∷ hs) n (w ∷ ws) rs = summary q n w rs ∷ all_advanced hs n ws rs
all_advanced (single q ∷ hs) n [] rs = []
all_advanced (single q ∷ hs) n (w ∷ ws) rs = w ∷ all_advanced hs n ws rs

get_elem?-middle :
    {A : Type 0} (xs : List A) (y : A) (ys : List A) → get_elem? (xs ++ y ∷ ys) (length xs) ≡ some y
get_elem?-middle [] y ys = refl
get_elem?-middle (x ∷ xs) y ys = get_elem?-middle xs y ys

set-middle :
    {A : Type 0} (xs : List A) (y z : A) (ys : List A)
    → set (xs ++ y ∷ ys) (length xs) z ≡ xs ++ z ∷ ys
set-middle [] y z ys = refl
set-middle (x ∷ xs) y z ys = ap (λ t. x ∷ t) (set-middle xs y z ys)

==_refl : (n : ℕ) → (n == n) ≡ true
==_refl n = ground arith

entry_of-middle :
    (n : ℕ) (before : List MinMaxValue) (w : MinMaxValue) (ws : List MinMaxValue) (o : Option Num)
    → entry_of n (length before) (before ++ w ∷ ws) w o ≡ before ++ fed w n o ∷ ws
entry_of-middle n before w ws none = refl
entry_of-middle n before w ws (some x) = set-middle before w (handle_value w n x) ws

entry_with-middle :
    (r : MonitorRecord) (n : ℕ) (q : Register) (before : List MinMaxValue) (w : MinMaxValue)
    (ws : List MinMaxValue)
    → w.reg ≡ q
    → entry_with r n q
        (length before)
        (before ++ w ∷ ws)
        (get_elem? (before ++ w ∷ ws) (length before))
      ≡ before ++ fed w n (column_value r q) ∷ ws
entry_with-middle r n q before w ws h =
    let same : (id_of_lable w.reg == id_of_lable q) ≡ true =
      ap (λ (p : Register). id_of_lable p == id_of_lable q) h ∙ ==_refl (id_of_lable q) in
    rw (get_elem?-middle before w ws, same) (entry_of-middle n before w ws (column_value r q))

length-snoc :
    (before : List MinMaxValue) (w : MinMaxValue) → suc (length before) ≡ length (before ++ w ∷ [])
length-snoc before w = omega (arith, length-append before (w ∷ []))

shifted :
    (r : MonitorRecord) (n : ℕ) (hs : List Item) (before : List MinMaxValue) (w : MinMaxValue)
    (ws : List MinMaxValue)
    → add_columns r n hs (length (before ++ w ∷ [])) ((before ++ w ∷ []) ++ ws)
      ≡ (before ++ w ∷ []) ++ advance r n hs ws
    → add_columns r n hs (suc (length before)) (before ++ w ∷ ws) ≡ before ++ w ∷ advance r n hs ws
shifted r n hs before w ws ih =
    ap (λ (k : ℕ). add_columns r n hs k (before ++ w ∷ ws)) (length-snoc before w)
    ∙ ap (add_columns r n hs (length (before ++ w ∷ []))) (sym (append_assoc before (w ∷ []) ws))
    ∙ ih
    ∙ append_assoc before (w ∷ []) (advance r n hs ws)

-- The loop, from the entry that the header has come to.
add_columns-advance :
    (r : MonitorRecord) (n : ℕ) (hs : List Item) (before ws : List MinMaxValue)
    → Aligned hs ws
    → add_columns r n hs (length before) (before ++ ws) ≡ before ++ advance r n hs ws
unfolding add_columns
add_columns-advance r n [] before ws h = refl
add_columns-advance r n (cnt ∷ hs) before ws h = add_columns-advance r n hs before ws h
add_columns-advance r n (first_time ∷ hs) before ws h = add_columns-advance r n hs before ws h
add_columns-advance r n (last_time ∷ hs) before ws h = add_columns-advance r n hs before ws h
add_columns-advance r n (min_max q ∷ hs) before [] h = absurd h
add_columns-advance r n (min_max q ∷ hs) before (w ∷ ws) (h, hs') =
    let v = fed w n (column_value r q) in
    ap (add_columns r n hs (suc (length before))) (entry_with-middle r n q before w ws h)
    ∙ shifted r n hs before v ws (add_columns-advance r n hs (before ++ v ∷ []) ws hs')
add_columns-advance r n (single q ∷ hs) before [] h = absurd h
add_columns-advance r n (single q ∷ hs) before (w ∷ ws) h =
    shifted r n hs before w ws (add_columns-advance r n hs (before ++ w ∷ []) ws h)

fed-reg : (w : MinMaxValue) (n : ℕ) (o : Option Num) → (fed w n o).reg ≡ w.reg
unfolding handle_value
fed-reg w n none = refl
fed-reg w n (some x) = refl

advance-Aligned :
    (r : MonitorRecord) (n : ℕ) (hs : List Item) (ws : List MinMaxValue)
    → Aligned hs ws
    → Aligned hs (advance r n hs ws)
advance-Aligned r n [] ws h = tt
advance-Aligned r n (cnt ∷ hs) ws h = advance-Aligned r n hs ws h
advance-Aligned r n (first_time ∷ hs) ws h = advance-Aligned r n hs ws h
advance-Aligned r n (last_time ∷ hs) ws h = advance-Aligned r n hs ws h
advance-Aligned r n (min_max q ∷ hs) [] h = absurd h
advance-Aligned r n (min_max q ∷ hs) (w ∷ ws) (h, k) =
    (fed-reg w n (column_value r q) ∙ h, advance-Aligned r n hs ws k)
advance-Aligned r n (single q ∷ hs) [] h = absurd h
advance-Aligned r n (single q ∷ hs) (w ∷ ws) h = advance-Aligned r n hs ws h

all_advanced-advance :
    (r : MonitorRecord) (rs : List MonitorRecord) (n : ℕ) (hs : List Item) (ws : List MinMaxValue)
    → all_advanced hs (suc n) (advance r n hs ws) rs ≡ all_advanced hs n ws (r ∷ rs)
unfolding summary
all_advanced-advance r rs n [] ws = refl
all_advanced-advance r rs n (cnt ∷ hs) ws = all_advanced-advance r rs n hs ws
all_advanced-advance r rs n (first_time ∷ hs) ws = all_advanced-advance r rs n hs ws
all_advanced-advance r rs n (last_time ∷ hs) ws = all_advanced-advance r rs n hs ws
all_advanced-advance r rs n (min_max q ∷ hs) [] = refl
all_advanced-advance r rs n (min_max q ∷ hs) (w ∷ ws) =
    rw (column_value-source_of r q) (
      ap (λ (t : List MinMaxValue). summary q n w (r ∷ rs) ∷ t) (all_advanced-advance r rs n hs ws))
all_advanced-advance r rs n (single q ∷ hs) [] = refl
all_advanced-advance r rs n (single q ∷ hs) (w ∷ ws) =
    ap (λ (t : List MinMaxValue). w ∷ t) (all_advanced-advance r rs n hs ws)

all_advanced-nothing :
    (hs : List Item) (n : ℕ) (ws : List MinMaxValue) → Aligned hs ws → ws ≡ all_advanced hs n ws []
unfolding summary
all_advanced-nothing [] n ws h = refl
all_advanced-nothing (cnt ∷ hs) n ws h = all_advanced-nothing hs n ws h
all_advanced-nothing (first_time ∷ hs) n ws h = all_advanced-nothing hs n ws h
all_advanced-nothing (last_time ∷ hs) n ws h = all_advanced-nothing hs n ws h
all_advanced-nothing (min_max q ∷ hs) n [] h = absurd h
all_advanced-nothing (min_max q ∷ hs) n (w ∷ ws) (h, k) =
    ap (λ (t : List MinMaxValue). w ∷ t) (all_advanced-nothing hs n ws k)
all_advanced-nothing (single q ∷ hs) n [] h = absurd h
all_advanced-nothing (single q ∷ hs) n (w ∷ ws) h =
    ap (λ (t : List MinMaxValue). w ∷ t) (all_advanced-nothing hs n ws h)

-- The entries of a new record.
entries_of-Aligned : (hs : List Item) → Aligned hs (entries_of hs)
unfolding entries_of
entries_of-Aligned [] = tt
entries_of-Aligned (cnt ∷ hs) = entries_of-Aligned hs
entries_of-Aligned (first_time ∷ hs) = entries_of-Aligned hs
entries_of-Aligned (last_time ∷ hs) = entries_of-Aligned hs
entries_of-Aligned (min_max q ∷ hs) = (refl, entries_of-Aligned hs)
entries_of-Aligned (single q ∷ hs) = entries_of-Aligned hs

all_advanced-entries_of :
    (hs : List Item) (rs : List MonitorRecord)
    → all_advanced hs 0 (entries_of hs) rs ≡ columns hs rs
unfolding entries_of
all_advanced-entries_of [] rs = refl
all_advanced-entries_of (cnt ∷ hs) rs = all_advanced-entries_of hs rs
all_advanced-entries_of (first_time ∷ hs) rs = all_advanced-entries_of hs rs
all_advanced-entries_of (last_time ∷ hs) rs = all_advanced-entries_of hs rs
all_advanced-entries_of (min_max q ∷ hs) rs =
    ap (λ (t : List MinMaxValue). summary q 0 (fresh q) rs ∷ t) (all_advanced-entries_of hs rs)
all_advanced-entries_of (single q ∷ hs) rs =
    ap (λ (t : List MinMaxValue). fresh q ∷ t) (all_advanced-entries_of hs rs)
