-- ===== src/Devices/Nibe1155/Writes/Limits.antt =====
-- The limits of the write methods of nibe1155.ts.
use rpi_atmega324_modbus_gat.Prelude.{ap, ◌+◌, ◌*◌, ◌≡◌, arith}
use rpi_atmega324_modbus_gat.Prelude.Int.{ℤ, pos, negsuc, ◌≤ℤ◌}
use rpi_atmega324_modbus_gat.Prelude.Num.{Num, undefined, nan, num, min_ℤ, max_ℤ}
use rpi_atmega324_modbus_gat.Devices.Registers.{Register, reg_min_comp_frequ, reg_max_comp_frequ}
use rpi_atmega324_modbus_gat.Devices.Nibe1155.{Target, register}
use rpi_atmega324_modbus_gat.Devices.Nibe1155.Writes.{
  round_ℤ, write_reg_min_comp_frequ, write_reg_max_comp_frequ,
}

-- For every number, the job writes a value from `lo` to `hi` to the register. NaN and undefined get past
-- the limits as NaN.
abbrev pub Limited : Register → ℤ → ℤ → (Num → Target × Num) → Type 0
Limited r lo hi f =
    ((x : ℤ) → (v : ℤ) × (f (num x) ≡ (register r, num v)) × (lo ≤ℤ v) × (v ≤ℤ hi))
    × (f nan ≡ (register r, nan))
    × (f undefined ≡ (register r, nan))

-- A whole number in hundredths.
abbrev hundred_times : ℤ → ℤ
hundred_times (pos n) = pos (n * 100)
hundred_times (negsuc n) = negsuc (n * 100 + 99)

-- A number that is limited in hundredths and rounded.
abbrev limited : ℤ → ℤ → ℤ → ℤ
limited lo hi x = round_ℤ (min_ℤ (hundred_times hi) (max_ℤ (hundred_times lo) x))

-- Whatever number the two methods for the frequencies of the compressor get, they write 90 as its minimum
-- and 120 as its maximum.
pub comp_frequ_constant :
    ((x : ℤ) → write_reg_min_comp_frequ (num x) ≡ (register reg_min_comp_frequ, num (pos 90)))
    × ((x : ℤ) → write_reg_max_comp_frequ (num x) ≡ (register reg_max_comp_frequ, num (pos 120)))
unfolding write_reg_min_comp_frequ write_reg_max_comp_frequ
comp_frequ_constant = (
  (λ x. ap (λ a. (register reg_min_comp_frequ, num a)) (min_frequ x)),
  (λ x. ap (λ a. (register reg_max_comp_frequ, num a)) (max_frequ x)),
)
  where
    min_frequ : (x : ℤ) → round_ℤ (max_ℤ (pos 9000) (min_ℤ (pos 1700) x)) ≡ pos 90
    min_frequ x = ground arith

    max_frequ : (x : ℤ) → round_ℤ (max_ℤ (pos 12000) (min_ℤ (pos 2000) x)) ≡ pos 120
    max_frequ x = ground arith
