-- ===== src/Users/Auth/Logins.antt =====
-- auth.ts, handleGetAuth and handlePostAuth: how a user logs in and how a token is renewed.
use rpi_atmega324_modbus_gat.Prelude.{ℕ, Bool, true, false, Option, none, some, List, if◌then◌else◌}
use rpi_atmega324_modbus_gat.Prelude.Num.{Num}
use rpi_atmega324_modbus_gat.Prelude.Result.{Result, ok, throw}
use rpi_atmega324_modbus_gat.Users.Attribute.{Text, same_text, Key, Value}
use rpi_atmega324_modbus_gat.Users.User.{
  Fault, User, UserLogin, ConfigUser, new_user_login, get_user, to_i_auth_user,
}
use rpi_atmega324_modbus_gat.Users.Password
use rpi_atmega324_modbus_gat.Users.Password.{PasswordFault, is_hashed, verify}
use rpi_atmega324_modbus_gat.Users.Auth.{
  TokenLibrary, Auth, Claims, Response, TokenType, UserAuth, access, create_access_token,
  create_remote_token, failed, invalid_body, invalid_password, json, page, password_fault,
  refresh_failed, remote, set_user, unknown_user, user_fault, verify_password,
}

module _ (jwt : TokenLibrary) where
  abbrev pub claims_of : Text → TokenType → Claims
  claims_of i t = record { claim_id = none; claim_htlid = some i; claim_type = some t }

  module _ (lib : Password.Library) (number_of date_of : Text → Num) (users : List ConfigUser) where
    abbrev refreshed : Text → Text → Result Fault (Option User) → Auth → Response × Auth
    refreshed i token (throw e) a = (failed (user_fault e), a)
    refreshed i token (ok none) a = (failed refresh_failed, a)
    refreshed i token (ok (some u)) a =
        if same_text u.user_id i
        then (
          json (record {
            htlid = i;
            access_token = some token;
            remote_token = none;
            auth_user = some (to_i_auth_user u);
          }),
          set_user u.user_id (some u) a,
        )
        else (failed refresh_failed, a)

    -- handleGetAuth, with the id that authorizeRequest has put into the request.
    unfoldable pub handle_get_auth : ℕ → Text → Auth → Response × Auth
    unfolding create_access_token get_user to_i_auth_user
    handle_get_auth now i a =
        refreshed i (create_access_token jwt a now (claims_of i access))
          (get_user number_of date_of users i) a

    -- The answer to a right password: `stayLoggedIn` is true or missing, and the content is JSON or not.
    abbrev user_auth : Bool → Text → User → UserAuth
    user_auth stay token u = record {
      htlid = u.user_id;
      access_token = if stay then none else some token;
      remote_token = if stay then some token else none;
      auth_user = some (to_i_auth_user u);
    }

    abbrev stays : Option Bool → Bool
    stays none = true
    stays (some b) = b

    abbrev answered : Bool → Bool → Text → User → Response
    answered is_json stay token u =
        if is_json then json (user_auth stay token u) else page u.user_id token

    abbrev token_for : Bool → ℕ → User → Auth → Text
    token_for stay now u a =
        create_remote_token jwt a now (claims_of u.user_id (if stay then remote else access))

    abbrev after_password :
        ℕ → Bool → UserLogin → User → Auth → Result PasswordFault Bool → Response
    after_password now is_json l u a (throw e) = failed (password_fault e)
    after_password now is_json l u a (ok false) = failed invalid_password
    after_password now is_json l u a (ok true) =
        answered is_json (stays l.login_stay) (token_for (stays l.login_stay) now u a) u

    abbrev pub after_user :
        ℕ → Bool → UserLogin → Result Fault (Option User) → Auth → Response × Auth
    after_user now is_json l (throw e) a = (failed (user_fault e), a)
    after_user now is_json l (ok none) a = (failed unknown_user, set_user l.login_id none a)
    after_user now is_json l (ok (some u)) a =
        let b = set_user u.user_id (some u) a in
        (after_password now is_json l u b (verify_password lib l.login_password u), b)

    abbrev pub after_body : ℕ → Bool → Result Fault UserLogin → Auth → Response × Auth
    after_body now is_json (throw e) a = (failed invalid_body, a)
    after_body now is_json (ok l) a =
        after_user now is_json l (get_user number_of date_of users l.login_id) a

    -- handlePostAuth.
    unfoldable pub handle_post_auth : ℕ → Bool → List (Key × Value) → Auth → Response × Auth
    unfolding create_remote_token get_user to_i_auth_user new_user_login verify_password
    handle_post_auth now is_json body a = after_body now is_json (new_user_login body) a
