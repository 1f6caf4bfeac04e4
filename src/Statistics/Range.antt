-- ===== src/Statistics/Range.antt =====
-- Minimum and maximum of a column of statistics.ts.
use rpi_atmega324_modbus_gat.Prelude.{
  ℕ, suc, ◌≡◌, refl, ◌⊎◌, inl, inr, Bool, true, false, some, List, [], ◌∷◌, ◌++◌, arith, ◌==◌,
  if◌then◌else◌,
}
use rpi_atmega324_modbus_gat.Prelude.Int.{ℤ, ltb_ℤ, ◌≤ℤ◌}
use rpi_atmega324_modbus_gat.Prelude.Num.{Num, nan, num}
use rpi_atmega324_modbus_gat.Statistics.{
  MinMaxValue, handle_value, StatisticsRecord, new_statistics_record, csv_header,
}
use rpi_atmega324_modbus_gat.Statistics.Slots.{Statistics, handle_timer}

-- A column that gets numbers, the first when `n` are counted.
abbrev pub handle_values : MinMaxValue → ℕ → List ℤ → MinMaxValue
handle_values v n [] = v
handle_values v n (x ∷ xs) = handle_values (handle_value v n (num x)) (suc n) xs

abbrev pub Occurs : ℤ → List ℤ → Type 0
Occurs a [] = ⊥
Occurs a (x ∷ xs) = (a ≡ x) ⊎ Occurs a xs

abbrev pub Within : ℤ → ℤ → List ℤ → Type 0
Within lo hi [] = lo ≤ℤ hi
Within lo hi (x ∷ xs) = (lo ≤ℤ x) × (x ≤ℤ hi) × Within lo hi xs

abbrev lesser : ℤ → ℤ → ℤ
lesser lo x = if ltb_ℤ x lo then x else lo

abbrev greater : ℤ → ℤ → ℤ
greater hi x = if ltb_ℤ hi x then x else hi

abbrev least : ℤ → List ℤ → ℤ
least lo [] = lo
least lo (x ∷ xs) = least (lesser lo x) xs

abbrev greatest : ℤ → List ℤ → ℤ
greatest hi [] = hi
greatest hi (x ∷ xs) = greatest (greater hi x) xs

if_num : (b : Bool) (a c : ℤ) → (if b then num a else num c) ≡ num (if b then a else c)
if_num true a c = refl
if_num false a c = refl

handle_value-min :
    (v : MinMaxValue) (n : ℕ) (lo x : ℤ)
    → v.min ≡ num lo
    → (handle_value v n (num x)).min ≡ num (lesser lo x)
unfolding handle_value
handle_value-min v n lo x h = rw h (if_num (ltb_ℤ x lo) x lo)

handle_value-max :
    (v : MinMaxValue) (n : ℕ) (hi x : ℤ)
    → v.max ≡ num hi
    → (handle_value v n (num x)).max ≡ num (greater hi x)
unfolding handle_value
handle_value-max v n hi x h = rw h (if_num (ltb_ℤ hi x) x hi)

first_min : (v : MinMaxValue) (n : ℕ) (x : ℤ) → v.min ≡ nan → (handle_value v n (num x)).min ≡ num x
unfolding handle_value
first_min v n x h = rw h refl

first_max : (v : MinMaxValue) (n : ℕ) (x : ℤ) → v.max ≡ nan → (handle_value v n (num x)).max ≡ num x
unfolding handle_value
first_max v n x h = rw h refl

==_suc : (n : ℕ) → (suc n == 0) ≡ false
==_suc n = ground arith

handle_values-min :
    (v : MinMaxValue) (n : ℕ) (lo : ℤ) (xs : List ℤ)
    → v.min ≡ num lo
    → (handle_values v n xs).min ≡ num (least lo xs)
handle_values-min v n lo [] h = h
handle_values-min v n lo (x ∷ xs) h =
    handle_values-min (handle_value v n (num x)) (suc n) (lesser lo x) xs
      (handle_value-min v n lo x h)

handle_values-max :
    (v : MinMaxValue) (n : ℕ) (hi : ℤ) (xs : List ℤ)
    → v.max ≡ num hi
    → (handle_values v n xs).max ≡ num (greatest hi xs)
handle_values-max v n hi [] h = h
handle_values-max v n hi (x ∷ xs) h =
    handle_values-max (handle_value v n (num x)) (suc n) (greater hi x) xs
      (handle_value-max v n hi x h)

≤ℤ_trans : (a b c : ℤ) → a ≤ℤ b → b ≤ℤ c → a ≤ℤ c
≤ℤ_trans a b c h k = omega arith

lesser-le : (lo x : ℤ) → (lesser lo x ≤ℤ lo) × (lesser lo x ≤ℤ x)
lesser-le lo x = ground arith

greater-ge : (hi x : ℤ) → (hi ≤ℤ greater hi x) × (x ≤ℤ greater hi x)
greater-ge hi x = ground arith

least-le : (lo : ℤ) (xs : List ℤ) → least lo xs ≤ℤ lo
least-le lo [] = omega arith
least-le lo (x ∷ xs) =
    ≤ℤ_trans (least (lesser lo x) xs) (lesser lo x) lo (least-le (lesser lo x) xs)
      (lesser-le lo x).0

greatest-ge : (hi : ℤ) (xs : List ℤ) → hi ≤ℤ greatest hi xs
greatest-ge hi [] = omega arith
greatest-ge hi (x ∷ xs) =
    ≤ℤ_trans hi (greater hi x) (greatest (greater hi x) xs) (greater-ge hi x).0
      (greatest-ge (greater hi x) xs)

-- All of a list is between its least and greatest, which start from `lo` and `hi`.
Within-least : (lo hi : ℤ) (xs : List ℤ) → lo ≤ℤ hi → Within (least lo xs) (greatest hi xs) xs
Within-least lo hi [] h = h
Within-least lo hi (x ∷ xs) h =
    let l = lesser lo x in
    let g = greater hi x in
    (
      ≤ℤ_trans (least l xs) l x (least-le l xs) (lesser-le lo x).1,
      ≤ℤ_trans x g (greatest g xs) (greater-ge hi x).1 (greatest-ge g xs),
      Within-least l g xs (≤ℤ_trans l x g (lesser-le lo x).1 (greater-ge hi x).1),
    )

least-Occurs : (lo : ℤ) (xs : List ℤ) → (least lo xs ≡ lo) ⊎ Occurs (least lo xs) xs
least-Occurs lo [] = inl refl
least-Occurs lo (x ∷ xs) = elim (least-Occurs (lesser lo x) xs) [
  | inl e ↦ picked (ltb_ℤ x lo) e
  | inr o ↦ inr (inr o)
]
  where
    picked : {z : ℤ} (b : Bool) → z ≡ (if b then x else lo) → (z ≡ lo) ⊎ Occurs z (x ∷ xs)
    picked true e = inr (inl e)
    picked false e = inl e

greatest-Occurs : (hi : ℤ) (xs : List ℤ) → (greatest hi xs ≡ hi) ⊎ Occurs (greatest hi xs) xs
greatest-Occurs hi [] = inl refl
greatest-Occurs hi (x ∷ xs) = elim (greatest-Occurs (greater hi x) xs) [
  | inl e ↦ picked (ltb_ℤ hi x) e
  | inr o ↦ inr (inr o)
]
  where
    picked : {z : ℤ} (b : Bool) → z ≡ (if b then x else hi) → (z ≡ hi) ⊎ Occurs z (x ∷ xs)
    picked true e = inr (inl e)
    picked false e = inl e

-- The range of a list: bounds of all of it that occur in it.
abbrev pub IsRange : Num → Num → List ℤ → Type 0
IsRange lo hi xs =
    (a : ℤ) × (b : ℤ) × (lo ≡ num a) × (hi ≡ num b) × Within a b xs × Occurs a xs × Occurs b xs

-- The minimum and the maximum of a column that starts as NaN and gets one or more numbers are the least
-- and the greatest of these numbers: all of them are between the two, and both are among them.
pub handle_values-IsRange :
    (v : MinMaxValue) (n : ℕ) (x : ℤ) (xs : List ℤ)
    → v.min ≡ nan
    → v.max ≡ nan
    → let w = handle_values v n (x ∷ xs) in IsRange w.min w.max (x ∷ xs)
handle_values-IsRange v n x xs h k =
    let u = handle_value v n (num x) in
    (
      least x xs,
      greatest x xs,
      handle_values-min u (suc n) x xs (first_min v n x h),
      handle_values-max u (suc n) x xs (first_max v n x k),
      (least-le x xs, greatest-ge x xs, Within-least x x xs (omega arith)),
      least-Occurs x xs,
      greatest-Occurs x xs,
    )

-- At the end of a slot in which a monitor record came, its record joins the history and is handed to the
-- file, the count starts again, and the next record begins with the single values of the old one and
-- without any monitored value.
pub handle_timer_lem :
    (s : Statistics) (c : StatisticsRecord) (n : ℕ)
    → s.disabled ≡ false
    → s.handle_monitor_record_count ≡ suc n
    → s.current ≡ some c
    → let t = handle_timer s in
      (t.history ≡ s.history ++ c ∷ [])
      × (t.lines ≡ c ∷ s.lines)
      × (t.handle_monitor_record_count ≡ 0)
      × (t.current ≡ some (new_statistics_record csv_header c.single_values))
unfolding handle_timer
handle_timer_lem s c n on count current =
    rw on (rw count (rw (==_suc n) (rw current (refl, refl, refl, refl))))
