-- ===== src/Prelude/Num.antt =====
-- The numbers of the source's values. A JavaScript number is an exact integer here, in a unit that
-- each use names (a register's raw value in 1, a temperature or frequency in 1/100), or NaN;
-- `undefined` stands beside them, and is NaN to arithmetic and to comparisons.
use rpi_atmega324_modbus_gat.Prelude.{◌+◌, ◌≡◌, Bool, true, false, arith, leb, if◌then◌else◌}
use rpi_atmega324_modbus_gat.Prelude.Int.{ℤ, pos_part, neg_part, ltb_ℤ}

pub data Num : Type 0 where
  undefined : Num
  nan : Num
  num : ℤ → Num

-- Arithmetic with NaN or undefined gives NaN.
abbrev pub map_num : (ℤ → ℤ) → Num → Num
map_num f (num a) = num (f a)
map_num f undefined = nan
map_num f nan = nan

abbrev pub map2_num : (ℤ → ℤ → ℤ) → Num → Num → Num
map2_num f (num a) b = map_num (f a) b
map2_num f undefined b = nan
map2_num f nan b = nan

-- A comparison with NaN or undefined is false.
abbrev pub test_num : (ℤ → ℤ → Bool) → Num → Num → Bool
test_num t (num a) (num b) = t a b
test_num t (num a) undefined = false
test_num t (num a) nan = false
test_num t undefined b = false
test_num t nan b = false

abbrev pub leb_ℤ : ℤ → ℤ → Bool
leb_ℤ a b = leb (pos_part a + neg_part b) (pos_part b + neg_part a)

abbrev pub eqb_ℤ : ℤ → ℤ → Bool
eqb_ℤ a b = if leb_ℤ a b then leb_ℤ b a else false

abbrev pub ltb_num : Num → Num → Bool
ltb_num = test_num ltb_ℤ

abbrev pub leb_num : Num → Num → Bool
leb_num = test_num leb_ℤ

-- `===` between numbers.
abbrev pub eqb_num : Num → Num → Bool
eqb_num = test_num eqb_ℤ

abbrev pub max_ℤ : ℤ → ℤ → ℤ
max_ℤ a b = if leb_ℤ a b then b else a

abbrev pub min_ℤ : ℤ → ℤ → ℤ
min_ℤ a b = if leb_ℤ a b then a else b

abbrev pub max_num : Num → Num → Num
max_num = map2_num max_ℤ

abbrev pub min_num : Num → Num → Num
min_num = map2_num min_ℤ

pub eqb_ℤ-eq : (a b : ℤ) → eqb_ℤ a b ≡ true → a ≡ b
eqb_ℤ-eq a b h = ground arith

pub eqb_ℤ_refl : (a : ℤ) → eqb_ℤ a a ≡ true
eqb_ℤ_refl a = ground arith
