-- ===== src/Devices/HeatPump/Waiting.antt =====
-- The loop of heat-pump.ts that waits for the compressor: its fuel is enough.
use rpi_atmega324_modbus_gat.Prelude.{
  ℕ, zero, suc, ◌+◌, ◌-◌, ◌*◌, ◌≤◌, ◌≡◌, refl, ◌⊎◌, inl, inr, true, false, arith, ltb, Bool-cases,
}
use rpi_atmega324_modbus_gat.Prelude.Result.{ok}
use rpi_atmega324_modbus_gat.Devices.HeatPump.{World, HeatPump}
use rpi_atmega324_modbus_gat.Devices.HeatPump.Machine.{is_running, wait_compressor}

-- How the loop of the source ends: the compressor runs, or the time is over.
abbrev pub Ended : (ℕ → World) → ℕ → ℕ → HeatPump → Type 0
Ended world begin limit t =
    (is_running (world t.tick) ≡ true) ⊎ (limit ≤ (world t.tick).now - begin)

-- The delay of the loop takes at least half a second each time, at every tick from `n` on.
abbrev pub IsSlow : (ℕ → World) → ℕ → Type 0
IsSlow world n = (i : ℕ) → n ≤ i → (world i).now + 500 ≤ (world (suc i)).now

not_less : (a b : ℕ) → ltb a b ≡ false → b ≤ a
not_less a b h = ground arith

-- With a clock that has not run behind `begin` and a delay of at least half a second at each turn, the loop
-- ends within as many turns as there are half seconds left until the time limit: it never runs out of fuel,
-- but returns, and it does so because the compressor runs or the time is over.
pub wait_compressor-Ended :
    (world : ℕ → World) (fuel begin limit : ℕ) (s : HeatPump)
    → IsSlow world s.tick
    → begin ≤ (world s.tick).now
    → limit ≤ (world s.tick).now - begin + 500 * fuel
    → let (r, t) = wait_compressor world fuel begin limit s in
      (r ≡ ok tt) × Ended world begin limit t
unfolding wait_compressor
wait_compressor-Ended world zero begin limit s slow b l =
    let over : ltb ((world s.tick).now - begin) limit ≡ false = ground arith in
    rw over (refl, inr (omega arith))
wait_compressor-Ended world (suc fuel) begin limit s slow b l =
    elim (Bool-cases (ltb ((world s.tick).now - begin) limit)) [
      | inl e ↦ elim (Bool-cases (is_running (world (suc s.tick)))) [
        | inl f ↦ rw e (rw f (refl, inl f))
        | inr f ↦
            let k : (world s.tick).now + 500 ≤ (world (suc s.tick)).now =
              slow s.tick (omega arith) in
            rw e (
              rw f (
                wait_compressor-Ended world fuel begin limit (record s { tick = suc s.tick })
                  (λ i h. slow i (omega arith)) (omega arith) (omega arith)))
      ]
      | inr e ↦ rw e (refl, inr (not_less _ _ e))
    ]
