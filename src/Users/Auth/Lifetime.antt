-- ===== src/Users/Auth/Lifetime.antt =====
-- createToken of auth.ts: how long a token lives whose timeout is a time of day.
use rpi_atmega324_modbus_gat.Prelude.{
  ℕ, ◌+◌, ◌≡◌, refl, ◌⊎◌, inl, inr, Bool-cases, Option, none, some, arith, ◌==◌, if◌then◌else◌,
}
use rpi_atmega324_modbus_gat.Prelude.Int.{
  ℤ, pos, negsuc, ◌+ℤ◌, ◌-ℤ◌, ◌≤ℤ◌, ltb_ℤ, -ℤ_parts, +ℤ_parts,
}
use rpi_atmega324_modbus_gat.Prelude.Num.{max_ℤ}
use rpi_atmega324_modbus_gat.Users.Auth.{
  TokenLibrary, Claims, Auth, time_of_day, seconds, floor_thousandth, create_remote_token,
  create_access_token,
}

-- Less than a day, in milliseconds, before or after.
abbrev pub WithinDay : ℤ → ℕ → Type 0
WithinDay t now = (t ≤ℤ pos (now + 86399999)) × (pos now ≤ℤ (t +ℤ pos 86399999))

floor_bounds :
    (d : ℤ)
    → d ≤ℤ pos 86399999
    → negsuc 86399998 ≤ℤ d
    → (floor_thousandth d ≤ℤ pos 86399) × (negsuc 86399 ≤ℤ floor_thousandth d)
floor_bounds (pos n) h k = (omega arith, omega arith)
floor_bounds (negsuc n) h k = (omega arith, omega arith)

abbrev next_day_of : ℕ → ℤ → ℤ
next_day_of minimum raw = if ltb_ℤ raw (pos minimum) then raw +ℤ pos 86400 else raw

next_day_bounds :
    (minimum : ℕ) (raw : ℤ)
    → raw ≤ℤ pos 86399
    → negsuc 86399 ≤ℤ raw
    → (pos 0 ≤ℤ next_day_of minimum raw) × (next_day_of minimum raw ≤ℤ pos (86399 + minimum))
unfolding ◌+ℤ◌
next_day_bounds minimum (pos n) h k = ground arith
next_day_bounds minimum (negsuc n) h k = ground arith

raw_bounds :
    (t : ℤ) (now : ℕ)
    → WithinDay t now
    → (floor_thousandth (t -ℤ pos now) ≤ℤ pos 86399)
      × (negsuc 86399 ≤ℤ floor_thousandth (t -ℤ pos now))
raw_bounds t now (h, k) =
    floor_bounds (t -ℤ pos now) (omega (arith, -ℤ_parts t (pos now)))
      (omega (arith, -ℤ_parts t (pos now), +ℤ_parts t (pos 86399999)))

abbrev at_least : Option ℕ → ℤ → ℤ
at_least none y = y
at_least (some x) y = if x == 0 then y else max_ℤ y (pos x)

at_least_bounds :
    (minimum : ℕ) (y : ℤ)
    → pos 0 ≤ℤ y
    → y ≤ℤ pos (86399 + minimum)
    → (pos minimum ≤ℤ at_least (some minimum) y)
      × (at_least (some minimum) y ≤ℤ pos (86399 + minimum))
at_least_bounds minimum y h k = ground arith

-- The seconds from now to a time of day, rounded down.
abbrev pub seconds_to : TokenLibrary → ℕ → ℕ → ℕ → ℕ → ℤ
seconds_to jwt now h m s = floor_thousandth (jwt.today_at now h m s -ℤ pos now)

bounds_of :
    (jwt : TokenLibrary) (minimum now h m s : ℕ)
    → WithinDay (jwt.today_at now h m s) now
    → (pos 0 ≤ℤ next_day_of minimum (seconds_to jwt now h m s))
      × (next_day_of minimum (seconds_to jwt now h m s) ≤ℤ pos (86399 + minimum))
bounds_of jwt minimum now h m s w =
    let (high, low) = raw_bounds (jwt.today_at now h m s) now w in
    next_day_bounds minimum (seconds_to jwt now h m s) high low

-- Today or tomorrow, and tomorrow exactly if today would be less than the minimum.
abbrev pub TodayOrTomorrow : ℕ → ℤ → ℤ → Type 0
TodayOrTomorrow minimum today n =
    ((n ≡ today) × (pos minimum ≤ℤ today))
    ⊎ ((n ≡ (today +ℤ pos 86400)) × ((today +ℤ pos 1) ≤ℤ pos minimum))

next_day_of-TodayOrTomorrow :
    (minimum : ℕ) (today : ℤ) → TodayOrTomorrow minimum today (next_day_of minimum today)
unfolding ◌+ℤ◌
next_day_of-TodayOrTomorrow minimum today = elim (Bool-cases (ltb_ℤ today (pos minimum))) [
  | inl e ↦ rw e (inr (refl, ground arith))
  | inr e ↦ rw e (inl (refl, ground arith))
]

-- The tokens that are created where both timeouts are a time of day, less than a day away from now. A remote
-- token is signed for at least the configured minimum of seconds and for less than a day longer than that.
-- An access token is signed for the seconds to its time of day, today or, if that is fewer seconds than the
-- minimum of the remote token, tomorrow: 0 seconds or more, and less than a day longer than the minimum. It is
-- not lengthened to the minimum.
pub token_lifetimes :
    (jwt : TokenLibrary) (a : Auth) (now : ℕ) (c : Claims) (h m s h' m' s' : ℕ)
    → a.remote_token_timeout ≡ time_of_day h m s
    → a.access_token_timeout ≡ time_of_day h' m' s'
    → WithinDay (jwt.today_at now h m s) now
    → WithinDay (jwt.today_at now h' m' s') now
    → ((n : ℤ) × (create_remote_token jwt a now c ≡ jwt.sign c a.private_key (seconds n))
        × (pos a.remote_token_minimum_seconds ≤ℤ n)
        × (n ≤ℤ pos (86399 + a.remote_token_minimum_seconds)))
      × ((n : ℤ) × (create_access_token jwt a now c ≡ jwt.sign c a.private_key (seconds n))
          × TodayOrTomorrow a.remote_token_minimum_seconds (seconds_to jwt now h' m' s') n
          × (pos 0 ≤ℤ n)
          × (n ≤ℤ pos (86399 + a.remote_token_minimum_seconds)))
unfolding create_remote_token create_access_token
token_lifetimes jwt a now c h m s h' m' s' remote access w w' =
    let minimum = a.remote_token_minimum_seconds in
    let (low, high) = bounds_of jwt minimum now h m s w in
    let (low', high') = bounds_of jwt minimum now h' m' s' w' in
    let (x, y) =
      at_least_bounds minimum (next_day_of minimum (seconds_to jwt now h m s)) low high in
    (
      (_, rw remote refl, x, y),
      (
        _,
        rw access refl,
        next_day_of-TodayOrTomorrow minimum (seconds_to jwt now h' m' s'),
        low',
        high',
      ),
    )
