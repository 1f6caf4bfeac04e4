-- ===== src/Users/User.antt =====
-- db/user.ts: the class User, whose constructor checks every attribute, and UserLoginLogout; client/auth-user.ts
-- and client/user-login.ts, which do the same at the boundary to the browser; and getUser of db/database.ts.
-- The constructors log and rethrow one error; a time is in milliseconds. `number_of` and `date_of` are
-- JavaScript's conversion of a text to a number and to a Date's time; that of `other` is NaN.
pub mod AuthUser
use rpi_atmega324_modbus_gat.Prelude.{
  ℕ, ◌+◌, ◌≡◌, Bool, true, false, not, ◌&&◌, ◌||◌, Option, none, some, List, [], ◌∷◌, ◌++◌, ◌==◌,
  if◌then◌else◌, length,
}
use rpi_atmega324_modbus_gat.Prelude.Int.{pos}
use rpi_atmega324_modbus_gat.Prelude.Num.{Num, undefined, nan, num, eqb_num, ltb_num, leb_num}
use rpi_atmega324_modbus_gat.Prelude.Result.{Result, ok, throw, ◌>>=◌, ◌>>◌, throw_if}
use rpi_atmega324_modbus_gat.Users.Attribute.{
  Text, same_text, Key, userid, surname, firstname, password, password_hash, login, logout, at,
  socket, id, stay_logged_in, Leaf, undefined_value, null_value, other, text, boolean, number, date,
  Value, leaf, object, leaf_of, value_of, is_undefined, leaf_text, value_text, count_set,
}

pub data Fault : Type 0 where
  illegal_user illegal_login_logout illegal_user_login : Fault

abbrev pub required : {A : Type 0} → Fault → Option A → Result Fault A
required e none = throw e
required e (some a) = ok a

pub record UserLoginLogout : Type 0 where
  pub at_millis : Num
  pub from_socket : Text

-- `isNaN(x) || x < 0` is false.
abbrev is_time : Num → Bool
is_time x = leb_num (num (pos 0)) x

abbrev time_if : Num → Num → Option Num
time_if x time = if is_time x then some time else none

module _ (number_of date_of : Text → Num) where
  -- The guards on `at`, up to `new Date(atMillis)`.
  abbrev millis_of : Leaf → Option Num
  millis_of undefined_value = none
  millis_of null_value = none
  millis_of other = none
  millis_of (text []) = none
  millis_of (text (c ∷ cs)) = time_if (number_of (c ∷ cs)) (date_of (c ∷ cs))
  millis_of (boolean b) = if b then some (num (pos 1)) else none
  millis_of (number x) = if eqb_num x (num (pos 0)) then none else time_if x x
  millis_of (date x) = time_if x x

  unfoldable pub new_login_logout : List (Key × Leaf) → Result Fault UserLoginLogout
  new_login_logout d = do
    millis ← required illegal_login_logout (millis_of (leaf_of at d))
    name ← required illegal_login_logout (leaf_text (leaf_of socket d))
    throw_if (not (length d == 2)) illegal_login_logout
    ok (record { at_millis = millis; from_socket = name })

pub record User : Type 0 where
  pub user_id : Text
  pub sur_name : Option Text
  pub first_name : Option Text
  pub pass_word : Option Text
  pub pass_word_hash : Option Text
  pub log_in : Option UserLoginLogout
  pub log_out : Option UserLoginLogout

abbrev some_text : Option Text → Result Fault (Option Text)
some_text none = throw illegal_user
some_text (some s) = ok (some s)

-- `if (x !== undefined) { if (!x || typeof(x) !== 'string') { throw } … }`.
abbrev pub optional_text : Value → Result Fault (Option Text)
optional_text v = if is_undefined v then ok none else some_text (value_text v)

-- `ignoredAttributeCount`.
abbrev ignored_count : List Key → List (Key × Value) → ℕ
ignored_count [] d = 0
ignored_count (k ∷ ks) d = (if is_undefined (value_of k d) then 0 else 1) + ignored_count ks d

module _ (number_of date_of : Text → Num) where
  abbrev built : Result Fault UserLoginLogout → Result Fault (Option UserLoginLogout)
  built (ok l) = ok (some l)
  built (throw e) = throw e

  -- `new UserLoginLogout(x)` of anything but an object with attributes throws.
  abbrev optional_login : Value → Result Fault (Option UserLoginLogout)
  optional_login (leaf v) = if is_undefined (leaf v) then ok none else throw illegal_login_logout
  optional_login (object d) = built (new_login_logout number_of date_of d)

  unfoldable pub new_user : List (Key × Value) → List Key → Result Fault User
  unfolding new_login_logout
  new_user d ignored = do
    i ← required illegal_user (value_text (value_of userid d))
    s ← optional_text (value_of surname d)
    f ← optional_text (value_of firstname d)
    p ← optional_text (value_of password d)
    h ← optional_text (value_of password_hash d)
    l ← optional_login (value_of login d)
    o ← optional_login (value_of logout d)
    let keys = 1 + count_set s + count_set f + count_set p + count_set h + count_set l + count_set o
    throw_if (not (keys + ignored_count ignored d == length d)) illegal_user
    ok (record {
      user_id = i;
      sur_name = s;
      first_name = f;
      pass_word = p;
      pass_word_hash = h;
      log_in = l;
      log_out = o;
    })

abbrev pub text_attribute : Key → Option Text → List (Key × Value)
text_attribute k none = []
text_attribute k (some s) = (k, leaf (text s)) ∷ []

-- UserLoginLogout.toObject.
unfoldable pub login_to_object : Bool → UserLoginLogout → List (Key × Leaf)
login_to_object preserve_date l =
    (at, (if preserve_date then date l.at_millis else number l.at_millis))
    ∷ (socket, text l.from_socket)
    ∷ []

abbrev login_attribute : Bool → Key → Option UserLoginLogout → List (Key × Value)
login_attribute preserve_date k none = []
login_attribute preserve_date k (some l) = (k, object (login_to_object preserve_date l)) ∷ []

unfoldable pub to_object : Bool → User → List (Key × Value)
unfolding login_to_object
to_object preserve_date u =
    (userid, leaf (text u.user_id))
    ∷ (text_attribute surname u.sur_name
        ++ (text_attribute firstname u.first_name
            ++ (text_attribute password u.pass_word
                ++ (text_attribute password_hash u.pass_word_hash
                    ++ (login_attribute preserve_date login u.log_in
                        ++ login_attribute preserve_date logout u.log_out)))))

-- toIAuthUser: no password is among the attributes.
unfoldable pub to_i_auth_user : User → List (Key × Value)
to_i_auth_user u =
    (userid, leaf (text u.user_id))
    ∷ (text_attribute surname u.sur_name ++ text_attribute firstname u.first_name)

-- client/user-login.ts.
pub record UserLogin : Type 0 where
  pub login_id : Text
  pub login_password : Text
  pub login_stay : Option Bool

abbrev optional_boolean : Value → Result Fault (Option Bool)
optional_boolean (leaf undefined_value) = ok none
optional_boolean (leaf (boolean b)) = ok (some b)
optional_boolean (leaf null_value) = throw illegal_user_login
optional_boolean (leaf other) = throw illegal_user_login
optional_boolean (leaf (text s)) = throw illegal_user_login
optional_boolean (leaf (number x)) = throw illegal_user_login
optional_boolean (leaf (date x)) = throw illegal_user_login
optional_boolean (object d) = throw illegal_user_login

unfoldable pub new_user_login : List (Key × Value) → Result Fault UserLogin
new_user_login d = do
  i ← required illegal_user_login (value_text (value_of id d))
  p ← required illegal_user_login (value_text (value_of password d))
  s ← optional_boolean (value_of stay_logged_in d)
  throw_if (not (2 + count_set s == length d)) illegal_user_login
  ok (record { login_id = i; login_password = p; login_stay = s })

-- db/database.ts: an entry of the configuration's list of users.
pub record ConfigUser : Type 0 where
  pub config_id : Text
  pub config_password : Value

abbrev pub find_user : Text → List ConfigUser → Option ConfigUser
find_user i [] = none
find_user i (u ∷ us) = if same_text u.config_id i then some u else find_user i us

-- `new User({userid: user.id, password: user.password})`.
abbrev pub stored_user : ConfigUser → List (Key × Value)
stored_user u = (userid, leaf (text u.config_id)) ∷ (password, u.config_password) ∷ []

module _ (number_of date_of : Text → Num) where
  abbrev pub user_if : Option ConfigUser → Result Fault (Option User)
  user_if none = ok none
  user_if (some u) = new_user number_of date_of (stored_user u) [] >>= λ v. ok (some v)

  -- getUser, over `config.users` (empty if it is not there).
  unfoldable pub get_user : List ConfigUser → Text → Result Fault (Option User)
  unfolding new_user
  get_user users i = user_if (find_user i users)
