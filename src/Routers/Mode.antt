-- ===== src/Routers/Mode.antt =====
-- routers/router-nibe.ts, postMode: the request that sets the mode of the heat pump, with the PIN of
-- server.ts. What the state machine does in the second that setDesiredMode waits is the parameter
-- `meanwhile`. A body that is missing is `none`, as is an attribute of it that is missing or empty.
pub mod Guard
use rpi_atmega324_modbus_gat.Prelude.{
  ℕ, Bool, true, false, ◌&&◌, Option, none, some, length, ◌==◌, if◌then◌else◌,
}
use rpi_atmega324_modbus_gat.Prelude.Int.{pos}
use rpi_atmega324_modbus_gat.Prelude.Num.{Num}
use rpi_atmega324_modbus_gat.Prelude.Result.{Result, ok, throw}
use rpi_atmega324_modbus_gat.Users.Attribute.{Text, same_text}
use rpi_atmega324_modbus_gat.Devices.HeatPump.{State, init, HeatPump, Fault, set_desired_mode}
use rpi_atmega324_modbus_gat.Routers.Errors.{
  HandlerError, bad_request, authentication_error, Reply, reply_to, handle_error,
}

-- Server.isPinOK; the first argument is the configured PIN, `none` if it is no text.
unfoldable pub is_pin_ok : Option Text → Text → Bool
is_pin_ok none pin = false
is_pin_ok (some c) pin = length c == 4 && same_text c pin

-- The text of `desiredMode`.
pub data DesiredMode : Type 0 where
  mode : State → DesiredMode
  other_text : Text → DesiredMode

-- setDesiredMode refuses every other text as it refuses 'init'.
abbrev pub state_of : DesiredMode → State
state_of (mode q) = q
state_of (other_text t) = init

pub record ModeBody : Type 0 where
  pub has_created_at : Bool
  pub wanted_mode : Option DesiredMode
  pub pin : Option Text
  pub f_setpoint_of_body : Num

-- The IHeatpumpMode that is sent back.
pub record ModeAnswer : Type 0 where
  pub current_mode : State
  pub answered_mode : Option State
  pub answered_f_setpoint : Num

abbrev answer : Result Fault (Unit {0}) × HeatPump → Result HandlerError ModeAnswer × HeatPump
answer (throw e, s) = (throw bad_request, s)
answer (ok u, s) = (
  ok (record {
    current_mode = s.state;
    answered_mode = s.desired_state;
    answered_f_setpoint = s.desired_frequency;
  }),
  s,
)

module _ (meanwhile : HeatPump → HeatPump) (config_pin : Option Text) where
  abbrev pub set_later : Num → DesiredMode → HeatPump → Result HandlerError ModeAnswer × HeatPump
  set_later f m s =
      answer (set_desired_mode (record { desired_mode = state_of m; f_setpoint = f }) (meanwhile s))

  abbrev pub with_pin :
      Num → DesiredMode → Option Text → HeatPump → Result HandlerError ModeAnswer × HeatPump
  with_pin f m none s = (throw authentication_error, s)
  with_pin f m (some p) s =
      if is_pin_ok config_pin p then set_later f m s else (throw authentication_error, s)

  abbrev pub with_mode :
      ModeBody → Option DesiredMode → HeatPump → Result HandlerError ModeAnswer × HeatPump
  with_mode b none s = (throw bad_request, s)
  with_mode b (some m) s = with_pin b.f_setpoint_of_body m b.pin s

  abbrev pub with_time : Bool → ModeBody → HeatPump → Result HandlerError ModeAnswer × HeatPump
  with_time false b s = (throw bad_request, s)
  with_time true b s = with_mode b b.wanted_mode s

  -- The body of the try.
  abbrev pub handle_mode : Option ModeBody → HeatPump → Result HandlerError ModeAnswer × HeatPump
  handle_mode none s = (throw bad_request, s)
  handle_mode (some b) s = with_time b.has_created_at b s

  unfoldable pub post_mode : Bool → Bool → Option ModeBody → HeatPump → Reply ModeAnswer × HeatPump
  unfolding set_desired_mode is_pin_ok handle_error
  post_mode has_auth_server accepts_json b s =
      (reply_to has_auth_server accepts_json (handle_mode b s).0, (handle_mode b s).1)
