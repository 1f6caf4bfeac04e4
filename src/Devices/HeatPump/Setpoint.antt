-- ===== src/Devices/HeatPump/Setpoint.antt =====
-- The set points that the control of heat-pump.ts computes.
use rpi_atmega324_modbus_gat.Prelude.{◌≡◌, refl, inl, inr, true, arith, Bool-cases}
use rpi_atmega324_modbus_gat.Prelude.Int.{ltb_ℤ, ℤ, pos, negsuc, ◌+ℤ◌, ◌≤ℤ◌}
use rpi_atmega324_modbus_gat.Prelude.Num.{min_ℤ, max_ℤ, num}
use rpi_atmega324_modbus_gat.Devices.HeatPump.{next_degree_minutes}
use rpi_atmega324_modbus_gat.Devices.HeatPump.Machine.{is_off_set_point}

-- The range and the distance of new degree minutes.
abbrev pub IsNear : ℤ → ℤ → Type 0
IsNear dm r = (negsuc 34999 ≤ℤ r) × (r ≤ℤ negsuc 99) × (r ≤ℤ dm +ℤ pos 1000) × (dm ≤ℤ r +ℤ pos 1000)

raised :
    (dm : ℤ) → negsuc 34999 ≤ℤ dm → dm ≤ℤ negsuc 99 → IsNear dm (min_ℤ (negsuc 99) (dm +ℤ pos 1000))
unfolding ◌+ℤ◌
raised dm h k = ground arith

lowered :
    (dm : ℤ)
    → negsuc 34999 ≤ℤ dm
    → dm ≤ℤ negsuc 99
    → IsNear dm (max_ℤ (negsuc 34999) (dm +ℤ negsuc 999))
unfolding ◌+ℤ◌
lowered dm h k = ground arith

-- From degree minutes between -350 and -1 the control moves by at most 10, and not out of that range.
pub next_degree_minutes_lem :
    (diff dm : ℤ)
    → negsuc 34999 ≤ℤ dm
    → dm ≤ℤ negsuc 99
    → (r : ℤ) × (next_degree_minutes (num diff) (num dm) ≡ num r) × IsNear dm r
unfolding next_degree_minutes
next_degree_minutes_lem diff dm h k = elim (Bool-cases (ltb_ℤ (pos 0) diff)) [
  | inl e ↦ let r = min_ℤ (negsuc 99) (dm +ℤ pos 1000) in (r, rw e refl, raised dm h k)
  | inr e ↦ let r = max_ℤ (negsuc 34999) (dm +ℤ negsuc 999) in (r, rw e refl, lowered dm h k)
]

-- Whatever the set point is, the test by which the control decides whether to adjust it says yes.
pub is_off_set_point_lem : (t x : ℤ) → is_off_set_point (num t) (num x) ≡ true
unfolding ◌+ℤ◌
is_off_set_point_lem t x = ground arith
