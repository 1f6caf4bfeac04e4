-- ===== src/Users/Auth/Refusals.antt =====
-- What auth.ts refuses: every login, since getUser gives no user a password hash, and every token that the
-- server has made, since it has no attribute `id`.
use rpi_atmega324_modbus_gat.Prelude.{
  ℕ, ◌*◌, leb, ◌≡◌, refl, ap, subst, inl, inr, Bool, false, Option, none, some, List, [], ◌∷◌, ◌++◌,
  arith, Bool-cases, some_inj,
}
use rpi_atmega324_modbus_gat.Prelude.Num.{Num}
use rpi_atmega324_modbus_gat.Prelude.Result.{Result, ok, throw, >>=-eq-ok, ok_inj}
use rpi_atmega324_modbus_gat.Users.Attribute.{Text, Key, Value}
use rpi_atmega324_modbus_gat.Users.User.{
  Fault, User, UserLogin, ConfigUser, stored_user, find_user, new_user, get_user, user_if,
  new_user_login,
}
use rpi_atmega324_modbus_gat.Users.Password
use rpi_atmega324_modbus_gat.Users.Password.{PasswordFault, is_hashed, verify}
use rpi_atmega324_modbus_gat.Users.Auth.{
  Auth, AuthFault, Response, failed, TokenLibrary, TokenContent, Claims, token_not_accepted,
  token_expired, invalid_token, invalid_password, invalid_body, unknown_user, user_fault, Expiry,
  expiry_of, create_token, checked, verify_password, authorize_request, TokenType, bearer,
  verify_token, create_access_token, create_remote_token, key_of,
}
use rpi_atmega324_modbus_gat.Users.Auth.Logins.{handle_post_auth, after_user, after_body, claims_of}

-- The user that is built of a configuration's entry has no hash.
new_user-stored :
    (number_of date_of : Text → Num) (c : ConfigUser) {u : User}
    → new_user number_of date_of (stored_user c) [] ≡ ok u
    → u.pass_word_hash ≡ none
unfolding new_user
new_user-stored number_of date_of c h = ground arith

user_if-no_hash :
    (number_of date_of : Text → Num) (o : Option ConfigUser) {u : User}
    → user_if number_of date_of o ≡ ok (some u)
    → u.pass_word_hash ≡ none
user_if-no_hash number_of date_of none h = cc
user_if-no_hash number_of date_of (some c) h =
    let (v, e, k) =
      >>=-eq-ok (new_user number_of date_of (stored_user c) []) (λ v. ok (some v)) h in
    let same : v ≡ _ = some_inj (ok_inj k) in
    subst (λ (w : User). w.pass_word_hash ≡ none) same (new_user-stored number_of date_of c e)

get_user-no_hash :
    (number_of date_of : Text → Num) (users : List ConfigUser) (i : Text) {u : User}
    → get_user number_of date_of users i ≡ ok (some u)
    → u.pass_word_hash ≡ none
unfolding get_user
get_user-no_hash number_of date_of users i h =
    user_if-no_hash number_of date_of (find_user i users) h

-- A user without a hash has no password.
verify_password-no_hash :
    (lib : Password.Library) (value : Text) (u : User)
    → u.pass_word_hash ≡ none
    → verify_password lib value u ≡ ok false
unfolding verify_password
verify_password-no_hash lib value u h = elim (Bool-cases (is_hashed lib value)) [
  | inl e ↦ rw (e, h) refl
  | inr e ↦ rw (e, h) refl
]

abbrev IsFailure : Response → Type 0
IsFailure r = (e : AuthFault) × (r ≡ failed e)

module _ (jwt : TokenLibrary) (lib : Password.Library) (number_of date_of : Text → Num)
    (users : List ConfigUser) (now : ℕ) (is_json : Bool) where
  after_user-failed :
      (l : UserLogin) (x : Result Fault (Option User)) (a : Auth)
      → get_user number_of date_of users l.login_id ≡ x
      → IsFailure (after_user jwt lib number_of date_of users now is_json l x a).0
  after_user-failed l (throw e) a h = (user_fault e, refl)
  after_user-failed l (ok none) a h = (unknown_user, refl)
  after_user-failed l (ok (some u)) a h = (
    invalid_password,
    rw
        (verify_password-no_hash lib l.login_password u
          (get_user-no_hash number_of date_of users l.login_id h))
        refl,
  )

  after_body-failed :
      (x : Result Fault UserLogin) (a : Auth)
      → IsFailure (after_body jwt lib number_of date_of users now is_json x a).0
  after_body-failed (throw e) a = (invalid_body, refl)
  after_body-failed (ok l) a =
      after_user-failed l (get_user number_of date_of users l.login_id) a refl

  -- Whatever users are configured, and whatever body a login has: it fails. No token is handed out.
  pub handle_post_auth-failed :
      (body : List (Key × Value)) (a : Auth)
      → (e : AuthFault) × ((handle_post_auth jwt lib number_of date_of users now is_json body a).0
          ≡ failed e)
  unfolding handle_post_auth
  handle_post_auth-failed body a = after_body-failed (new_user_login body) a

-- The key under which a user without an id is looked up.
abbrev undefined_key : Text
undefined_key = key_of none

-- The package hands back the claims that were signed.
abbrev pub KeepsClaims : TokenLibrary → Type 0
KeepsClaims jwt =
    (c : Claims) (private_key public_key : Text) (e : Expiry) (now : ℕ) (content : TokenContent)
    → jwt.verify_signed now (jwt.sign c private_key e) public_key ≡ some content
    → content.claims ≡ c

checked-failed :
    (jwt : TokenLibrary) (now : ℕ) (o : Option TokenContent) (a : Auth)
    → ((c : TokenContent) → o ≡ some c → c.claims.claim_id ≡ none)
    → a.map_user undefined_key ≡ none
    → IsFailure (checked jwt now o a)
checked-failed jwt now none a k h = (invalid_token, refl)
checked-failed jwt now (some c) a k h = elim (Bool-cases (leb (c.exp * 1000) now)) [
  | inl old ↦ (token_expired, rw old refl)
  | inr valid ↦ (token_not_accepted, rw (valid, k c refl, h) refl)
]

verify_token-claims :
    (jwt : TokenLibrary)
    → KeepsClaims jwt
    → (keys : List Text) (now : ℕ) (c : Claims) (private_key : Text) (e : Expiry)
      (content : TokenContent)
    → verify_token jwt keys now (jwt.sign c private_key e) ≡ some content
    → content.claims ≡ c
unfolding verify_token
verify_token-claims jwt keeps [] now c private_key e content h = cc
verify_token-claims jwt keeps (k ∷ ks) now c private_key e content h =
    keeps c private_key k e now content h

own_token-failed :
    (jwt : TokenLibrary)
    → KeepsClaims jwt
    → (a : Auth) (i : Text) (t : TokenType) (e : Expiry) (now : ℕ) → a.map_user undefined_key ≡ none
    → IsFailure (
        checked jwt now
          (verify_token jwt a.public_keys now (jwt.sign (claims_of jwt i t) a.private_key e))
          a)
own_token-failed jwt keeps a i t e now h =
    checked-failed jwt now _ a
      (λ c k.
        ap (λ (d : Claims). d.claim_id)
          (verify_token-claims jwt keeps a.public_keys now (claims_of jwt i t) a.private_key e c k))
      h

-- A token that the server made for a user, as a login or a renewal does, is never accepted in a request:
-- it has no `id`, and no user is registered under "undefined". Used is that the package gives back the
-- claims that were signed.
pub authorize_request-failed :
    (jwt : TokenLibrary) (keeps : KeepsClaims jwt) (a : Auth) (i : Text) (t : TokenType)
    (made now : ℕ)
    → a.map_user (key_of none) ≡ none
    → ((e : AuthFault) × (authorize_request jwt now
            (some (bearer ++ create_access_token jwt a made (claims_of jwt i t)))
            a
          ≡ failed e))
      × ((e : AuthFault) × (authorize_request jwt now
              (some (bearer ++ create_remote_token jwt a made (claims_of jwt i t)))
              a
            ≡ failed e))
unfolding authorize_request create_access_token create_remote_token create_token
authorize_request-failed jwt keeps a i t made now h = (
  own_token-failed jwt keeps a i t
      (expiry_of jwt a.remote_token_minimum_seconds made none a.access_token_timeout) now h,
  own_token-failed jwt keeps a i t
      (expiry_of jwt a.remote_token_minimum_seconds made (some a.remote_token_minimum_seconds)
        a.remote_token_timeout)
      now h,
)
