-- ===== src/Monitor/Rounding.antt =====
-- normaliseUnit of client/nibe1155-monitor-record.ts: what is shown is the number, rounded, in the prefix
-- that fits its size.
use rpi_atmega324_modbus_gat.Prelude.{
  ℕ, zero, suc, ◌+◌, ◌*◌, ◌/◌, ◌≤◌, ◌<◌, ◌≡◌, refl, inl, inr, true, arith, leb, ltb, Bool-cases,
}
use rpi_atmega324_modbus_gat.Prelude.Int.{ℤ, pos, negsuc, pos_part, neg_part, ◌*ℤ◌}
use rpi_atmega324_modbus_gat.Prelude.Num.{num}
use rpi_atmega324_modbus_gat.Monitor.{
  Prefix, no_prefix, mega, kilo, milli, micro, UnitText, scaled, as_it_is, not_a_number, size_of,
  round_quotient, negated, power_of_ten, normalise_unit, with_unit,
}

-- `2 * |n * d - y| ≤ d`, on the two parts of the numbers.
abbrev pub IsNear : ℕ → ℤ → ℤ → Type 0
IsNear d n y =
    (2 * (pos_part n * d) ≤ 2 * pos_part y + d)
    × (2 * pos_part y ≤ 2 * (pos_part n * d) + d)
    × (2 * (neg_part n * d) ≤ 2 * neg_part y + d)
    × (2 * neg_part y ≤ 2 * (neg_part n * d) + d)

-- The millionths that a prefix stands for.
abbrev pub millionths : Prefix → ℕ
millionths mega = 1000000000000
millionths kilo = 1000000000
millionths no_prefix = 1000000
millionths milli = 1000
millionths micro = 1

-- The sizes, in millionths, that get a prefix.
abbrev pub Fits : Prefix → ℕ → Type 0
Fits mega n = 1000000000000 < n
Fits kilo n = (1000000000 < n) × (n ≤ 1000000000000)
Fits no_prefix n = (100000 ≤ n) × (n ≤ 1000000000)
Fits milli n = (1000 ≤ n) × (n < 100000)
Fits micro n = (1 ≤ n) × (n < 1000)

abbrev pub IsShown : ℤ → ℕ → UnitText → Type 0
IsShown x k (scaled n j p) = (j ≡ k) × IsNear (millionths p) n (pos k *ℤ x) × Fits p (size_of x)
IsShown x k (as_it_is y) = size_of x ≡ 0
IsShown x k not_a_number = ⊥

negated_parts : (n : ℕ) → (pos_part (negated n) ≡ 0) × (neg_part (negated n) ≡ n)
negated_parts zero = (refl, refl)
negated_parts (suc n) = (refl, refl)

round_quotient-IsNear :
    (p : Prefix) (y : ℤ) → IsNear (millionths p) (round_quotient (millionths p) y) y
unfolding round_quotient
round_quotient-IsNear mega (pos n) = omega arith
round_quotient-IsNear kilo (pos n) = omega arith
round_quotient-IsNear no_prefix (pos n) = omega arith
round_quotient-IsNear milli (pos n) = omega arith
round_quotient-IsNear micro (pos n) = omega arith
round_quotient-IsNear mega (negsuc n) =
    omega (arith, negated_parts ((2 * n + 1 + 1000000000000) / 2000000000000))
round_quotient-IsNear kilo (negsuc n) =
    omega (arith, negated_parts ((2 * n + 1 + 1000000000) / 2000000000))
round_quotient-IsNear no_prefix (negsuc n) =
    omega (arith, negated_parts ((2 * n + 1 + 1000000) / 2000000))
round_quotient-IsNear milli (negsuc n) = omega (arith, negated_parts ((2 * n + 1 + 1000) / 2000))
round_quotient-IsNear micro (negsuc n) = omega (arith, negated_parts ((2 * n + 1 + 1) / 2))

rounded_as :
    (p : Prefix) (k : ℕ) (x : ℤ)
    → Fits p (size_of x)
    → IsShown x k (scaled (round_quotient (millionths p) (pos k *ℤ x)) k p)
rounded_as p k x h = (refl, round_quotient-IsNear p (pos k *ℤ x), h)

with_unit-IsShown : (k : ℕ) (x : ℤ) → IsShown x k (with_unit k x)
with_unit-IsShown k x = elim (Bool-cases (ltb 1000000000000 (size_of x))) [
  | inl a ↦ rw a (rounded_as mega k x (ground arith))
  | inr a ↦ (elim (Bool-cases (ltb 1000000000 (size_of x))) [
    | inl b ↦ rw (a, b) (rounded_as kilo k x (ground arith))
    | inr b ↦ (elim (Bool-cases (leb 100000 (size_of x))) [
      | inl c ↦ rw (a, b, c) (rounded_as no_prefix k x (ground arith))
      | inr c ↦ (elim (Bool-cases (leb 1000 (size_of x))) [
        | inl d ↦ rw (a, b, c, d) (rounded_as milli k x (ground arith))
        | inr d ↦ (elim (Bool-cases (leb 1 (size_of x))) [
          | inl e ↦ rw (a, b, c, d, e) (rounded_as micro k x (ground arith))
          | inr e ↦ rw (a, b, c, d, e) (ground arith)
        ])
      ])
    ])
  ])
]

-- A number with a unit, in millionths: what is shown is the number times ten to the digits, divided by
-- what the prefix stands for and rounded to the nearest whole number, over that power of ten; and the prefix
-- is the one for its size: M above a million, k above a thousand, none from a tenth on, m from a thousandth
-- on, and the micro sign for all that is smaller. Only 0 is shown as it is.
pub normalise_unit-IsShown :
    (x : ℤ) (digits : ℕ) → IsShown x (power_of_ten digits) (normalise_unit (num x) digits true)
unfolding normalise_unit
normalise_unit-IsShown x digits = with_unit-IsShown (power_of_ten digits) x
