-- ===== src/Monitor.antt =====
-- client/nibe1155-monitor-record.ts: the record of the monitored values that a poll hands to the statistics,
-- and how it shows them. A value of the device is in hundredths; normaliseUnit takes a number in millionths
-- and gives the rounded quotient as a whole number `n` and its divisor `k`, where the source divides.
mod Tests
pub mod Rounding
use rpi_atmega324_modbus_gat.Prelude.{
  ℕ, zero, suc, ◌+◌, ◌-◌, ◌*◌, ◌/◌, Bool, true, false, Option, none, some, List, [], ◌∷◌, leb, ltb,
  ◌==◌, if◌then◌else◌,
}
use rpi_atmega324_modbus_gat.Prelude.Int.{ℤ, pos, negsuc, pos_part, neg_part, ◌*ℤ◌}
use rpi_atmega324_modbus_gat.Prelude.Num.{Num, undefined, nan, num, map_num}
use rpi_atmega324_modbus_gat.Devices.Registers.{
  Register, id_of_lable, supply_s1_temp, supply_return_temp, brine_in_temp, brine_out_temp,
  condensor_out_temp, hot_gas_temp, liquid_line_temp, suction_temp, supply_temp, degree_minutes,
  calc_supply_temp, electric_heater_power, compressor_frequency, compressor_in_power,
  compressor_state, supply_pump_state, brine_pump_state, supply_pump_speed, brine_pump_speed,
}
use rpi_atmega324_modbus_gat.Devices.Value.{Nibe1155Value}
use rpi_atmega324_modbus_gat.Devices.Nibe1155.{Nibe1155}
use rpi_atmega324_modbus_gat.Statistics.{MonitorRecord}

-- The attributes of INibe1155MonitorRecordData.
abbrev pub monitored : List Register
monitored =
    supply_s1_temp ∷ supply_return_temp ∷ brine_in_temp ∷ brine_out_temp ∷ condensor_out_temp
    ∷ hot_gas_temp ∷ liquid_line_temp ∷ suction_temp ∷ supply_temp ∷ degree_minutes
    ∷ calc_supply_temp ∷ electric_heater_power ∷ compressor_frequency ∷ compressor_in_power
    ∷ compressor_state ∷ supply_pump_state ∷ brine_pump_state ∷ supply_pump_speed ∷ brine_pump_speed
    ∷ []

-- The data: the objects of the registers, of which the texts are left out.
pub record Nibe1155MonitorRecord : Type 0 where
  pub created_at : ℕ
  pub data_of : List (Register × Nibe1155Value)

abbrev snapshot : Nibe1155 → List Register → List (Register × Nibe1155Value)
snapshot s [] = []
snapshot s (r ∷ rs) = (r, s.values r) ∷ snapshot s rs

unfoldable pub create_instance : ℕ → Nibe1155 → Nibe1155MonitorRecord
create_instance now s = record { created_at = now; data_of = snapshot s monitored }

-- `this._data.x.value`; an attribute that the class has not is undefined.
abbrev value_in : List (Register × Nibe1155Value) → Register → Num
value_in [] q = undefined
value_in ((r, v) ∷ d) q = if id_of_lable r == id_of_lable q then v.value else value_in d q

unfoldable pub getter : Nibe1155MonitorRecord → Register → Num
unfolding id_of_lable
getter r q = value_in r.data_of q

-- What the statistics see of the record.
unfoldable pub seen_by_statistics : Nibe1155MonitorRecord → MonitorRecord
unfolding getter
seen_by_statistics r = record { created_at = r.created_at; values = getter r }

-- `k`, the power of ten of the digits. The cases 3 to 0 of the switch are the loop's results.
unfoldable pub power_of_ten : ℕ → ℕ
power_of_ten zero = 1
power_of_ten (suc digits) = 10 * power_of_ten digits

-- `Math.round(y / d)` for d from 1 on.
abbrev pub negated : ℕ → ℤ
negated zero = pos 0
negated (suc n) = negsuc n

unfoldable pub round_quotient : ℕ → ℤ → ℤ
round_quotient d (pos n) = pos ((2 * n + d) / (2 * d))
round_quotient d (negsuc n) = negated ((2 * n + 1 + d) / (2 * d))

pub data Prefix : Type 0 where
  no_prefix mega kilo milli micro : Prefix

-- The text: `n / k` with a prefix and, if there is one, the unit; or the number as it is, with the unit.
pub data UnitText : Type 0 where
  scaled : ℤ → ℕ → Prefix → UnitText
  as_it_is : Num → UnitText
  not_a_number : UnitText

abbrev size_of : ℤ → ℕ
size_of x = pos_part x + neg_part x

abbrev with_unit : ℕ → ℤ → UnitText
with_unit k x =
    let y = pos k *ℤ x in
    if ltb 1000000000000 (size_of x)
    then scaled (round_quotient 1000000000000 y) k mega
    else (if ltb 1000000000 (size_of x)
        then scaled (round_quotient 1000000000 y) k kilo
        else (if leb 100000 (size_of x)
            then scaled (round_quotient 1000000 y) k no_prefix
            else (if leb 1000 (size_of x)
                then scaled (round_quotient 1000 y) k milli
                else (if leb 1 (size_of x)
                    then scaled (round_quotient 1 y) k micro
                    else as_it_is (num x)))))

abbrev without_unit : ℕ → ℤ → UnitText
without_unit k x = scaled (round_quotient 1000000 (pos k *ℤ x)) k no_prefix

unfoldable pub normalise_unit : Num → ℕ → Bool → UnitText
unfolding power_of_ten round_quotient ◌*ℤ◌
normalise_unit (num x) digits has_unit =
    if has_unit then with_unit (power_of_ten digits) x else without_unit (power_of_ten digits) x
normalise_unit nan digits true = as_it_is nan
normalise_unit nan digits false = not_a_number
normalise_unit undefined digits true = as_it_is undefined
normalise_unit undefined digits false = not_a_number

-- Digits and unit of toHumanReadableObject, for each attribute.
abbrev shown_with : Register → ℕ × Bool
shown_with q =
    if id_of_lable q == id_of_lable degree_minutes
    then (0, false)
    else (if id_of_lable q == id_of_lable compressor_state
        then (0, false)
        else (if id_of_lable q == id_of_lable supply_pump_state
            then (0, false)
            else (if id_of_lable q == id_of_lable brine_pump_state
                then (0, false)
                else (if id_of_lable q == id_of_lable electric_heater_power
                    then (0, true)
                    else (if id_of_lable q == id_of_lable compressor_frequency
                        then (0, true)
                        else (if id_of_lable q == id_of_lable compressor_in_power
                            then (0, true)
                            else (if id_of_lable q == id_of_lable supply_pump_speed
                                then (0, true)
                                else (if id_of_lable q == id_of_lable brine_pump_speed
                                    then (0, true)
                                    else (1, true)))))))))

-- A value in hundredths, in millionths.
abbrev in_millionths : Num → Num
in_millionths = map_num (λ a. pos 10000 *ℤ a)

abbrev human_readable : Nibe1155MonitorRecord → List Register → List (Register × UnitText)
human_readable r [] = []
human_readable r (q ∷ qs) =
    (q, normalise_unit (in_millionths (getter r q)) (shown_with q).0 (shown_with q).1)
    ∷ human_readable r qs

unfoldable pub to_human_readable_object : Nibe1155MonitorRecord → List (Register × UnitText)
unfolding getter normalise_unit id_of_lable
to_human_readable_object r = human_readable r monitored
