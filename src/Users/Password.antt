-- ===== src/Users/Password.antt =====
-- utils/password.ts and utils/ldap-password.ts: which hash a password is compared with, and the salted
-- SHA-1 of LDAP. The packages password-hash, jssha, atob, btoa and the UTF-8 encoding are parameters.
-- The second hash of LdapPassword, `_sambaPasswordHash`, is left out: nothing compares it.
pub mod Ldap
use rpi_atmega324_modbus_gat.Prelude.{
  ℕ, zero, suc, ◌+◌, ◌-◌, ◌*◌, ◌%◌, Bool, true, false, ◌&&◌, ◌||◌, Option, none, some, List, [],
  ◌∷◌, ◌++◌, leb, ◌==◌, if◌then◌else◌, length, take, drop, get_or,
}
use rpi_atmega324_modbus_gat.Prelude.Result.{Result, ok, throw, ◌>>=◌, ◌>>◌, throw_if}
use rpi_atmega324_modbus_gat.Users.Attribute.{Text, same_text, starts_with}

-- What the code calls: of password-hash its isHashed, its verify (of a password against a hash) and its
-- generate; the SHA-1 of bytes as hexadecimal digits; the bytes of a text in UTF-8; atob and btoa; and the
-- four numbers that Math.random gives for a salt.
pub record Library : Type 0 where
  pub is_hashed : Text → Bool
  pub verify : Text → Text → Bool
  pub generate : Text → Text
  pub sha1_hex : List ℕ → Text
  pub utf8 : Text → List ℕ
  pub from_base64 : Text → List ℕ
  pub to_base64 : List ℕ → Text
  pub random_salt : List ℕ

pub data PasswordFault : Type 0 where
  length_not_supported not_implemented : PasswordFault

-- "{SSHA}" and "{PLAIN}".
abbrev pub ssha : Text
ssha = b'{' ∷ b'S' ∷ b'S' ∷ b'H' ∷ b'A' ∷ b'}' ∷ []

abbrev pub plain : Text
plain = b'{' ∷ b'P' ∷ b'L' ∷ b'A' ∷ b'I' ∷ b'N' ∷ b'}' ∷ []

-- `parseInt(c, 16)` of one character; `none` is NaN.
abbrev hex_digit : ℕ → Option ℕ
hex_digit c =
    if leb b'0' c && leb c b'9'
    then some (c - b'0')
    else (if leb b'a' c && leb c b'f'
        then some (c - 87)
        else (if leb b'A' c && leb c b'F' then some (c - 55) else none))

-- A store of NaN into a Uint8Array is 0.
abbrev hex_byte : Option ℕ → Option ℕ → ℕ
hex_byte none y = 0
hex_byte (some x) none = 0
hex_byte (some x) (some y) = (x * 16 + y) % 256

-- hexstr2Uint8Array; a last single character is stored out of bounds.
unfoldable pub hexstr_to_bytes : Text → List ℕ
hexstr_to_bytes [] = []
hexstr_to_bytes (a ∷ []) = []
hexstr_to_bytes (a ∷ b ∷ s) = hex_byte (hex_digit a) (hex_digit b) ∷ hexstr_to_bytes s

pub record LdapPassword : Type 0 where
  pub slapd_password_hash : Text
  pub salt_bytes : List ℕ
  pub sha1_bytes : List ℕ

-- The constructor's second argument.
pub data Salt : Type 0 where
  absent : Salt
  typed_array numbers : List ℕ → Salt

abbrev without_plain : Text → Text
without_plain t = if starts_with plain t then drop 7 t else t

module _ (lib : Library) where
  -- Four numbers as bytes; one that is not there is stored as 0.
  abbrev four_bytes : List ℕ → List ℕ
  four_bytes s =
      get_or s 0 0 % 256 ∷ get_or s 1 0 % 256 ∷ get_or s 2 0 % 256 ∷ get_or s 3 0 % 256 ∷ []

  abbrev salt_of : Salt → List ℕ
  salt_of absent = four_bytes lib.random_salt
  salt_of (typed_array s) = s
  salt_of (numbers s) = four_bytes (if length s == 0 then lib.random_salt else s)

  -- The digest of a password, with the salt behind it.
  unfoldable pub digest : Text → List ℕ → List ℕ
  unfolding hexstr_to_bytes
  digest password salt = hexstr_to_bytes (lib.sha1_hex (lib.utf8 (without_plain password) ++ salt))

  abbrev of_hash : Text → List ℕ → Result PasswordFault LdapPassword
  of_hash password ba =
      if length ba == 24
      then ok (record {
        slapd_password_hash = password;
        salt_bytes = drop 20 ba;
        sha1_bytes = take 20 ba;
      })
      else throw length_not_supported

  abbrev of_password : Text → List ℕ → LdapPassword
  of_password password salt = record {
    slapd_password_hash = ssha ++ lib.to_base64 (digest password salt ++ salt);
    salt_bytes = salt;
    sha1_bytes = [];
  }

  -- The constructor of LdapPassword.
  unfoldable pub new_ldap_password : Text → Salt → Result PasswordFault LdapPassword
  unfolding digest
  new_ldap_password password salt =
      if starts_with ssha password
      then of_hash password (lib.from_base64 (drop 6 password))
      else ok (of_password password (salt_of salt))

  -- The static method `verifiy`.
  unfoldable pub verify_ldap : Text → Text → Result PasswordFault Bool
  unfolding new_ldap_password
  verify_ldap hash password = do
    pw1 ← new_ldap_password hash absent
    pw2 ← new_ldap_password password (typed_array pw1.salt_bytes)
    ok (same_text pw1.slapd_password_hash pw2.slapd_password_hash)

  -- password.generate; `ldap` says whether the options have it.
  unfoldable pub generate : Text → Bool → Result PasswordFault Text
  generate password ldap =
      if ldap then throw not_implemented else ok (lib.generate (without_plain password))

  abbrev verify_text : Text → Text → Result PasswordFault Bool
  verify_text password [] = ok false
  verify_text [] (c ∷ cs) = ok false
  verify_text (p ∷ ps) (c ∷ cs) =
      if starts_with ssha (c ∷ cs)
      then verify_ldap (c ∷ cs) (p ∷ ps)
      else ok (lib.verify (p ∷ ps) (c ∷ cs))

  -- password.verify; the hash may be undefined.
  unfoldable pub verify : Text → Option Text → Result PasswordFault Bool
  unfolding verify_ldap
  verify password none = ok false
  verify password (some hash) = verify_text password hash

  unfoldable pub is_hashed : Text → Bool
  is_hashed password = lib.is_hashed password || starts_with ssha password
