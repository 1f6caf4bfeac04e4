-- ===== src/Routers/Mode/Guard.antt =====
-- What guards the mode of the heat pump: who may set it, to what, and that a refusal leaves it.
use rpi_atmega324_modbus_gat.Prelude.{
  ◌≡◌, refl, ap, sym, ◌∙◌, ◌⊎◌, inl, inr, Bool, true, false, Bool-cases, and_left, and_right, ◌&&◌,
  Option, none, some, length, ◌==◌, ==→eq,
}
use rpi_atmega324_modbus_gat.Prelude.Int.{pos}
use rpi_atmega324_modbus_gat.Prelude.Num.{Num, num, leb_num}
use rpi_atmega324_modbus_gat.Users.Attribute.{Text, same_text, same_text-eq}
use rpi_atmega324_modbus_gat.Devices.HeatPump.{
  State, init, off, error, test, frequency, HeatPump, set_desired_mode,
}
use rpi_atmega324_modbus_gat.Routers.Errors.{
  Reply, answered, refused, passed_on, reply_to, handle_error,
}
use rpi_atmega324_modbus_gat.Routers.Mode.{
  is_pin_ok, DesiredMode, mode, other_text, ModeBody, ModeAnswer, set_later, with_pin, with_mode,
  with_time, post_mode,
}

pub data IsSettable : State → Type 0 where
  settable_off : IsSettable off
  settable_test : IsSettable test
  settable_frequency : IsSettable frequency

-- The frequency is only taken over with its mode.
abbrev pub frequency_for : State → Num → Num → Num
frequency_for frequency f old = f
frequency_for init f old = old
frequency_for off f old = old
frequency_for error f old = old
frequency_for test f old = old

abbrev pub set_to : State → Num → HeatPump → HeatPump
set_to q f s = record s {
  desired_state = some q;
  desired_frequency = frequency_for q f s.desired_frequency;
}

abbrev pub answer_of : HeatPump → ModeAnswer
answer_of t = record {
  current_mode = t.state;
  answered_mode = t.desired_state;
  answered_f_setpoint = t.desired_frequency;
}

-- `===` of the given PIN and the configured one, which has four characters.
abbrev pub HasPin : Option Text → ModeBody → Type 0
HasPin config b = (p : Text) × (config ≡ some p) × (length p ≡ 4) × (b.pin ≡ some p)

abbrev pub HasMode : State → ModeBody → Type 0
HasMode q b =
    IsSettable q
    × (b.wanted_mode ≡ some (mode q))
    × (leb_num (num (pos 2000)) b.f_setpoint_of_body
          && leb_num b.f_setpoint_of_body (num (pos 9000))
        ≡ true)

module _ (meanwhile : HeatPump → HeatPump) (config : Option Text)
    (has_auth_server accepts_json : Bool) where
  abbrev pub TakesMode : Option ModeBody → HeatPump → ModeAnswer → HeatPump → Type 0
  TakesMode body s a t =
      (b : ModeBody) × (q : State) × (body ≡ some b)
      × HasPin config b
      × HasMode q b
      × (t ≡ set_to q b.f_setpoint_of_body (meanwhile s))
      × (a ≡ answer_of t)

  abbrev pub IsGuarded : Option ModeBody → HeatPump → Reply ModeAnswer × HeatPump → Type 0
  IsGuarded body s (answered a, t) = TakesMode body s a t
  IsGuarded body s (refused status json header, t) =
      (((status ≡ 400) × (header ≡ false)) ⊎ ((status ≡ 401) × (header ≡ has_auth_server)))
      × (json ≡ accepts_json)
      × ((t ≡ s) ⊎ (t ≡ meanwhile s))
  IsGuarded body s (passed_on e, t) = ⊥

  in_range :
      (b : ModeBody) (m : DesiredMode) (s : HeatPump)
      → HasPin config b
      → b.wanted_mode ≡ some m
      → leb_num (num (pos 2000)) b.f_setpoint_of_body
          && leb_num b.f_setpoint_of_body (num (pos 9000))
        ≡ true
      → let r = set_later meanwhile config b.f_setpoint_of_body m s in
        IsGuarded (some b) s (reply_to has_auth_server accepts_json r.0, r.1)
  unfolding set_desired_mode handle_error
  in_range b (mode off) s p w e = rw e (b, off, refl, p, (settable_off, w, e), refl, refl)
  in_range b (mode test) s p w e = rw e (b, test, refl, p, (settable_test, w, e), refl, refl)
  in_range b (mode frequency) s p w e =
      rw e (b, frequency, refl, p, (settable_frequency, w, e), refl, refl)
  in_range b (mode init) s p w e = rw e (inl (refl, refl), refl, inr refl)
  in_range b (mode error) s p w e = rw e (inl (refl, refl), refl, inr refl)
  in_range b (other_text t) s p w e = rw e (inl (refl, refl), refl, inr refl)

  out_of_range :
      (b : ModeBody) (m : DesiredMode) (s : HeatPump)
      → leb_num (num (pos 2000)) b.f_setpoint_of_body
          && leb_num b.f_setpoint_of_body (num (pos 9000))
        ≡ false
      → let r = set_later meanwhile config b.f_setpoint_of_body m s in
        IsGuarded (some b) s (reply_to has_auth_server accepts_json r.0, r.1)
  unfolding set_desired_mode handle_error
  out_of_range b m s e = rw e (inl (refl, refl), refl, inr refl)

  right_pin : (c : Option Text) (p : Text) → is_pin_ok c p ≡ true → (c ≡ some p) × (length p ≡ 4)
  unfolding is_pin_ok
  right_pin none p h = cc
  right_pin (some c) p h =
      let same : c ≡ p = same_text-eq c p (and_right (length c == 4) (same_text c p) h) in
      (
        ap some same,
        ap length (sym same) ∙ ==→eq (length c) 4 (and_left (length c == 4) (same_text c p) h),
      )

  with_pin-IsGuarded :
      (b : ModeBody) (m : DesiredMode) (o : Option Text) (s : HeatPump)
      → b.wanted_mode ≡ some m
      → b.pin ≡ o
      → let r = with_pin meanwhile config b.f_setpoint_of_body m o s in
        IsGuarded (some b) s (reply_to has_auth_server accepts_json r.0, r.1)
  unfolding handle_error
  with_pin-IsGuarded b m none s w e = (inr (refl, refl), refl, inl refl)
  with_pin-IsGuarded b m (some p) s w e = elim (Bool-cases (is_pin_ok config p)) [
    | inr h ↦ rw h (inr (refl, refl), refl, inl refl)
    | inl h ↦
        let right = right_pin config p h in
        rw h
          (elim (Bool-cases (
            leb_num (num (pos 2000)) b.f_setpoint_of_body
            && leb_num b.f_setpoint_of_body (num (pos 9000)))) [
              | inl k ↦ in_range b m s (p, right.0, right.1, e) w k
              | inr k ↦ out_of_range b m s k
            ])
  ]

  with_mode-IsGuarded :
      (b : ModeBody) (o : Option DesiredMode) (s : HeatPump)
      → b.wanted_mode ≡ o
      → let r = with_mode meanwhile config b o s in
        IsGuarded (some b) s (reply_to has_auth_server accepts_json r.0, r.1)
  unfolding handle_error
  with_mode-IsGuarded b none s w = (inl (refl, refl), refl, inl refl)
  with_mode-IsGuarded b (some m) s w = with_pin-IsGuarded b m b.pin s w refl

  with_time-IsGuarded :
      (b : ModeBody) (has_time : Bool) (s : HeatPump)
      → let r = with_time meanwhile config has_time b s in
        IsGuarded (some b) s (reply_to has_auth_server accepts_json r.0, r.1)
  unfolding handle_error
  with_time-IsGuarded b false s = (inl (refl, refl), refl, inl refl)
  with_time-IsGuarded b true s = with_mode-IsGuarded b b.wanted_mode s refl

  -- Whatever body a POST of the mode has, the handler answers it itself. Either the body has the configured
  -- PIN of four characters, one of the modes off, test and frequency, and a frequency from 20 to 90: then
  -- the machine, as it is a second later, gets that mode and, with the mode frequency, that frequency, and
  -- the answer says so. Or the request is refused with 400, or with 401 and the header that names the server
  -- for the authentication, in the form that is accepted, and the mode is not set.
  pub post_mode-IsGuarded :
      (body : Option ModeBody) (s : HeatPump)
      → IsGuarded body s (post_mode meanwhile config has_auth_server accepts_json body s)
  unfolding post_mode
  post_mode-IsGuarded none s = (inl (refl, refl), refl, inl refl)
  post_mode-IsGuarded (some b) s = with_time-IsGuarded b b.has_created_at s
