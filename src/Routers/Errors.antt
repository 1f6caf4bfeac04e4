-- ===== src/Routers/Errors.antt =====
-- routers/router-error.ts: the errors of the handlers and handleError, without its log lines, for which it
-- also masks a password in the request's body.
use rpi_atmega324_modbus_gat.Prelude.{ℕ, Bool, ◌&&◌, ◌||◌, ◌==◌, if◌then◌else◌}
use rpi_atmega324_modbus_gat.Prelude.Result.{Result, ok, throw}

-- A RouterError with its status code, or any other Error.
pub data HandlerError : Type 0 where
  router_error : ℕ → HandlerError
  other_error : HandlerError

abbrev pub bad_request : HandlerError
bad_request = router_error 400

abbrev pub authentication_error : HandlerError
authentication_error = router_error 401

-- The status and the header are those of a refusal: whether it is JSON and not a page, and whether it
-- names the server for the authentication.
pub data Reply (A : Type 0) : Type 0 where
  answered : A → Reply A
  refused : ℕ → Bool → Bool → Reply A
  passed_on : HandlerError → Reply A

module _ {A : Type 0} (has_auth_server accepts_json : Bool) where
  unfoldable pub handle_error : HandlerError → Reply A
  handle_error other_error = passed_on other_error
  handle_error (router_error status) =
      if status == 400 || status == 401 || status == 404
      then refused status accepts_json (status == 401 && has_auth_server)
      else passed_on (router_error status)

  -- `try { ...; res.json(rv); } catch (err) { handleError(err, req, res, next, debug); }`.
  abbrev pub reply_to : Result HandlerError A → Reply A
  reply_to (ok a) = answered a
  reply_to (throw e) = handle_error e
