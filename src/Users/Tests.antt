-- ===== src/Users/Tests.antt =====
-- The theorems on users, passwords and tokens at concrete data.
use rpi_atmega324_modbus_gat.Prelude.{
  ℕ, ◌+◌, ◌*◌, ◌≡◌, refl, ap, sym, ◌∙◌, ◌↔◌, inl, inr, Bool, true, false, Option, none, some, List,
  [], ◌∷◌, ◌++◌, arith, if◌then◌else◌, replicate, length-replicate, Bool-cases, some_inj,
}
use rpi_atmega324_modbus_gat.Prelude.Int.{ℤ, pos, ◌≤ℤ◌, +ℤ_parts}
use rpi_atmega324_modbus_gat.Prelude.Num.{nan}
use rpi_atmega324_modbus_gat.Prelude.Result.{ok}
use rpi_atmega324_modbus_gat.Users.Attribute.{
  Text, same_text, same_text-eq, Key, userid, surname, password, id, text, Value, leaf,
}
use rpi_atmega324_modbus_gat.Users.User.{ConfigUser}
use rpi_atmega324_modbus_gat.Users.User.AuthUser.{
  AuthUser, new_auth_user, auth_to_object, is_equal, new_auth_user-auth_to_object,
}
use rpi_atmega324_modbus_gat.Users.Password
use rpi_atmega324_modbus_gat.Users.Password.{digest, verify_ldap}
use rpi_atmega324_modbus_gat.Users.Password.Ldap.{stored, verify_ldap_iff}
use rpi_atmega324_modbus_gat.Users.Auth.{
  Auth, AuthFault, failed, TokenLibrary, TokenContent, TokenType, access, remote, Claims, duration,
  time_of_day, bearer, authorize_request, create_access_token, create_remote_token,
}
use rpi_atmega324_modbus_gat.Users.Auth.Logins.{claims_of, handle_post_auth}
use rpi_atmega324_modbus_gat.Users.Auth.Refusals.{
  handle_post_auth-failed, KeepsClaims, authorize_request-failed,
}
use rpi_atmega324_modbus_gat.Users.Auth.Lifetime.{TodayOrTomorrow, seconds_to, token_lifetimes}

-- Packages for the tests: base64 is the identity, and the digits of the hash say how long the input is.
abbrev parity : List ℕ → ℕ
parity [] = b'0'
parity (a ∷ []) = b'1'
parity (a ∷ b ∷ s) = parity s

abbrev packages : Password.Library
packages = record {
  is_hashed = λ t. false;
  verify = λ p h. same_text p h;
  generate = λ p. p;
  sha1_hex = λ bs. replicate 40 (parity bs);
  utf8 = λ t. t;
  from_base64 = λ t. t;
  to_base64 = λ bs. bs;
  random_salt = [];
}

verify_ldap_iff_example :
    let salt : List ℕ = 1 ∷ 2 ∷ 3 ∷ 4 ∷ [] in
    let p : Text = b'a' ∷ b'b' ∷ [] in
    let q : Text = b'c' ∷ [] in
    (verify_ldap packages
        (stored packages
          (λ bs h. refl)
          (λ bs. length-replicate 40 (parity bs))
          salt
          (omega arith)
          refl
          p)
        q
      ≡ ok true)
    ↔ (digest packages q salt ≡ digest packages p salt)
verify_ldap_iff_example =
    verify_ldap_iff packages (λ bs h. refl) (λ bs. length-replicate 40 (parity bs))
      (1 ∷ 2 ∷ 3 ∷ 4 ∷ []) (omega arith) refl (b'a' ∷ b'b' ∷ []) (b'c' ∷ []) refl

-- A package for tokens that knows one user's access token, and a clock at midnight.
abbrev guest : Text
guest = b'g' ∷ []

abbrev is_guest : Option Text → Option Text → Option TokenType → Bool
is_guest none (some t) (some access) = same_text t guest
is_guest none (some t) (some remote) = false
is_guest none (some t) none = false
is_guest none none o = false
is_guest (some s) p o = false

abbrev claims_if : Option Text → Option Text → Option TokenType → Claims
claims_if i h t = record { claim_id = i; claim_htlid = h; claim_type = t }

abbrev guest_content : TokenContent
guest_content = record { claims = claims_if none (some guest) (some access); iat = 1; exp = 9 }

abbrev sign_guest : Claims → Text
sign_guest c = if is_guest c.claim_id c.claim_htlid c.claim_type then guest else []

abbrev content_of : Text → Option TokenContent
content_of [] = none
content_of (c ∷ cs) = some guest_content

abbrev tokens : TokenLibrary
tokens = record {
  sign = λ c k e. sign_guest c;
  verify_signed = λ now t k. content_of t;
  today_at = λ now h m s. pos ((h * 3600 + m * 60 + s) * 1000);
}

guest_claims :
    (i h : Option Text) (t : Option TokenType)
    → is_guest i h t ≡ true
    → claims_if none (some guest) (some access) ≡ claims_if i h t
guest_claims none (some t) (some access) e =
    ap (λ (u : Text). claims_if none (some u) (some access)) (sym (same_text-eq t guest e))
guest_claims none (some t) (some remote) e = cc
guest_claims none (some t) none e = cc
guest_claims none none o e = cc
guest_claims (some s) p o e = cc

tokens-KeepsClaims : KeepsClaims tokens
tokens-KeepsClaims c private_key public_key e now content h =
    elim (Bool-cases (is_guest c.claim_id c.claim_htlid c.claim_type)) [
      | inl yes_guest ↦
          (let same : guest_content ≡ content = some_inj (rw yes_guest at h) in
            ap (λ (d : TokenContent). d.claims) (sym same)
            ∙ guest_claims c.claim_id c.claim_htlid c.claim_type yes_guest)
      | inr no_guest ↦ absurd (ground arith)
    ]

abbrev a_server : Auth
a_server = record {
  access_token_timeout = duration guest;
  remote_token_timeout = time_of_day 4 0 0;
  remote_token_minimum_seconds = 600;
  private_key = [];
  public_keys = guest ∷ [];
  map_user = λ i. none;
}

authorize_request-failed_example :
    ((e : AuthFault) × (authorize_request tokens 500
          (some (bearer ++ create_access_token tokens a_server 400 (claims_of tokens guest access)))
          a_server
        ≡ failed e))
    × ((e : AuthFault) × (authorize_request tokens 500
            (some
              (bearer ++ create_remote_token tokens a_server 400 (claims_of tokens guest access)))
            a_server
          ≡ failed e))
authorize_request-failed_example =
    authorize_request-failed tokens tokens-KeepsClaims a_server guest access 400 500 refl

abbrev one_user : List ConfigUser
one_user = record { config_id = guest; config_password = leaf (text guest) } ∷ []

abbrev a_login : List (Key × Value)
a_login = (id, leaf (text guest)) ∷ (password, leaf (text guest)) ∷ []

handle_post_auth-failed_example :
    (e : AuthFault) × ((handle_post_auth tokens packages
        (λ t. nan)
        (λ t. nan)
        one_user
        500
        true
        a_login
        a_server).0
      ≡ failed e)
handle_post_auth-failed_example =
    handle_post_auth-failed tokens packages (λ t. nan) (λ t. nan) one_user 500 true a_login a_server

abbrev nightly : Auth
nightly = record a_server {
  access_token_timeout = time_of_day 4 0 0;
  remote_token_timeout = time_of_day 4 0 0;
  remote_token_minimum_seconds = 600;
}

token_lifetimes_example :
    ((n : ℤ) × (create_remote_token tokens nightly 14300000 (claims_of tokens guest remote)
        ≡ sign_guest (claims_of tokens guest remote))
      × (pos 600 ≤ℤ n)
      × (n ≤ℤ pos 86999))
    × ((n : ℤ) × (create_access_token tokens nightly 14300000 (claims_of tokens guest remote)
          ≡ sign_guest (claims_of tokens guest remote))
        × TodayOrTomorrow 600 (seconds_to tokens 14300000 4 0 0) n
        × (pos 0 ≤ℤ n)
        × (n ≤ℤ pos 86999))
token_lifetimes_example =
    token_lifetimes tokens nightly 14300000 (claims_of tokens guest remote) 4 0 0 4 0 0 refl refl
      (omega arith, omega (arith, +ℤ_parts (pos 14400000) (pos 86399999)))
      (omega arith, omega (arith, +ℤ_parts (pos 14400000) (pos 86399999)))

abbrev two_names : List (Key × Value)
two_names = (surname, leaf (text guest)) ∷ (userid, leaf (text guest)) ∷ []

abbrev named : AuthUser
named = record { auth_userid = some guest; auth_surname = some guest; auth_firstname = none }

new_auth_user-auth_to_object_example :
    (new_auth_user (auth_to_object named) ≡ some named)
    × (is_equal named (auth_to_object named) ≡ true)
unfolding new_auth_user
new_auth_user-auth_to_object_example = new_auth_user-auth_to_object two_names named guest refl refl
