-- ===== src/Users/Auth.antt =====
-- auth.ts: the tokens and the check of a request's token (Logins has the login and the renewal), with
-- verifyPassword of db/user.ts. The package jsonwebtoken and the local time of day are parameters. `_mapUser` is a function
-- of the user's id; the keys that every JavaScript object inherits are left out.
pub mod Logins
pub mod Refusals
pub mod Lifetime
use rpi_atmega324_modbus_gat.Prelude.{
  ℕ, suc, ◌+◌, ◌*◌, ◌/◌, Bool, true, false, not, ◌&&◌, ◌||◌, Option, none, some, List, [], ◌∷◌, leb,
  ◌==◌, if◌then◌else◌, drop,
}
use rpi_atmega324_modbus_gat.Prelude.Int.{ℤ, pos, negsuc, ◌+ℤ◌, ◌-ℤ◌, ltb_ℤ}
use rpi_atmega324_modbus_gat.Prelude.Num.{Num, max_ℤ}
use rpi_atmega324_modbus_gat.Prelude.Result.{Result, ok, throw, ◌>>=◌, ◌>>◌}
use rpi_atmega324_modbus_gat.Users.Attribute.{Text, same_text, starts_with, Key, Value}
use rpi_atmega324_modbus_gat.Users.User.{
  Fault, User, UserLogin, ConfigUser, new_user_login, get_user, to_i_auth_user,
}
use rpi_atmega324_modbus_gat.Users.Password
use rpi_atmega324_modbus_gat.Users.Password.{PasswordFault, is_hashed, verify}

pub data TokenType : Type 0 where
  access remote : TokenType

-- What a token is made of; `claim_id` is the attribute `id` that authorizeRequest reads.
pub record Claims : Type 0 where
  pub claim_id : Option Text
  pub claim_htlid : Option Text
  pub claim_type : Option TokenType

-- ITokenContent, with the two times that the package adds, in seconds.
pub record TokenContent : Type 0 where
  pub claims : Claims
  pub iat : ℕ
  pub exp : ℕ

-- A timeout of the configuration: `h:m:s`, or a text that is handed to the package as it is.
pub data Timeout : Type 0 where
  time_of_day : ℕ → ℕ → ℕ → Timeout
  duration : Text → Timeout

-- The option `expiresIn` of the package: seconds, or a text.
pub data Expiry : Type 0 where
  seconds : ℤ → Expiry
  period : Text → Expiry

-- jwt.sign and jwt.verify (at a time in milliseconds; `none` is an error), and `new Date(…)` with the date
-- of `now` and a time of day, in milliseconds.
pub record TokenLibrary : Type 0 where
  pub sign : Claims → Text → Expiry → Text
  pub verify_signed : ℕ → Text → Text → Option TokenContent
  pub today_at : ℕ → ℕ → ℕ → ℕ → ℤ

pub record Auth : Type 0 where
  pub access_token_timeout : Timeout
  pub remote_token_timeout : Timeout
  pub remote_token_minimum_seconds : ℕ
  pub private_key : Text
  pub public_keys : List Text
  pub map_user : Text → Option User

-- IUserAuth.
pub record UserAuth : Type 0 where
  pub htlid : Text
  pub access_token : Option Text
  pub remote_token : Option Text
  pub auth_user : Option (List (Key × Value))

-- What handleError gets.
pub data AuthFault : Type 0 where
  refresh_failed missing_bearer invalid_token token_expired token_not_accepted : AuthFault
  invalid_body unknown_user invalid_password : AuthFault
  user_fault : Fault → AuthFault
  password_fault : PasswordFault → AuthFault

-- The end of a handler: a JSON body, a page, the next handler with the token's id and user, or an error.
pub data Response : Type 0 where
  json : UserAuth → Response
  page : Text → Text → Response
  next : Option Text → TokenContent → User → Response
  failed : AuthFault → Response

-- `Math.floor(x / 1000)`.
abbrev pub floor_thousandth : ℤ → ℤ
floor_thousandth (pos n) = pos (n / 1000)
floor_thousandth (negsuc n) = negsuc (n / 1000)

-- `_mapUser[id] = u`, and the key of an id that may be undefined.
abbrev pub set_user : Text → Option User → Auth → Auth
set_user i u a = record a { map_user = λ j. if same_text j i then u else a.map_user j }

abbrev pub key_of : Option Text → Text
key_of none = b'u' ∷ b'n' ∷ b'd' ∷ b'e' ∷ b'f' ∷ b'i' ∷ b'n' ∷ b'e' ∷ b'd' ∷ []
key_of (some i) = i

-- "Bearer ".
abbrev pub bearer : Text
bearer = b'B' ∷ b'e' ∷ b'a' ∷ b'r' ∷ b'e' ∷ b'r' ∷ b' ' ∷ []

abbrev same_hash : Text → Option Text → Bool
same_hash value none = false
same_hash value (some h) = same_text value h

-- User.verifyPassword.
unfoldable pub verify_password : Password.Library → Text → User → Result PasswordFault Bool
unfolding is_hashed verify
verify_password lib value u =
    if is_hashed lib value
    then ok (same_hash value u.pass_word_hash)
    else verify lib value u.pass_word_hash

module _ (jwt : TokenLibrary) where
  -- `seconds` of createToken; a minimum of 0 is as good as none.
  unfoldable pub lifetime : ℕ → ℕ → ℕ → ℕ → ℕ → Option ℕ → ℤ
  unfolding ◌+ℤ◌ ◌-ℤ◌
  lifetime minimum now h m s min_seconds =
      let raw = floor_thousandth (jwt.today_at now h m s -ℤ pos now) in
      let next_day = if ltb_ℤ raw (pos minimum) then raw +ℤ pos 86400 else raw in
      elim min_seconds [
        | none ↦ next_day
        | some x ↦ if x == 0 then next_day else max_ℤ next_day (pos x)
      ]

  abbrev expiry_of : ℕ → ℕ → Option ℕ → Timeout → Expiry
  expiry_of minimum now min_seconds (duration t) = period t
  expiry_of minimum now min_seconds (time_of_day h m s) =
      seconds (lifetime minimum now h m s min_seconds)

  unfoldable pub create_token : Auth → ℕ → Claims → Timeout → Option ℕ → Text
  unfolding lifetime
  create_token a now c expires_in min_seconds =
      jwt.sign c a.private_key (expiry_of a.remote_token_minimum_seconds now min_seconds expires_in)

  unfoldable pub create_remote_token : Auth → ℕ → Claims → Text
  unfolding create_token
  create_remote_token a now c =
      create_token a now c a.remote_token_timeout (some a.remote_token_minimum_seconds)

  unfoldable pub create_access_token : Auth → ℕ → Claims → Text
  unfolding create_token
  create_access_token a now c = create_token a now c a.access_token_timeout none

  -- verifyToken: the promise of the first key is returned as it is, so no other key is tried.
  unfoldable pub verify_token : List Text → ℕ → Text → Option TokenContent
  verify_token [] now token = none
  verify_token (k ∷ ks) now token = jwt.verify_signed now token k

  abbrev accepted : TokenContent → Option User → Response
  accepted c none = failed token_not_accepted
  accepted c (some u) = next c.claims.claim_id c u

  abbrev checked : ℕ → Option TokenContent → Auth → Response
  checked now none a = failed invalid_token
  checked now (some c) a =
      if leb (c.exp * 1000) now
      then failed token_expired
      else accepted c (a.map_user (key_of c.claims.claim_id))

  -- authorizeRequest; the header is `none` where it is missing or no text.
  unfoldable pub authorize_request : ℕ → Option Text → Auth → Response
  unfolding verify_token
  authorize_request now none a = failed missing_bearer
  authorize_request now (some header) a =
      if starts_with bearer header
      then checked now (verify_token a.public_keys now (drop 7 header)) a
      else failed missing_bearer
