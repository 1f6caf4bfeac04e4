-- ===== src/Users/Password/Ldap.antt =====
-- ldap-password.ts: which passwords a generated hash accepts.
use rpi_atmega324_modbus_gat.Prelude.{
  ℕ, zero, suc, ◌/◌, ◌<◌, ◌≡◌, refl, sym, ap, ◌∙◌, ◌↔◌, true, false, Option, none, some, List, [],
  ◌∷◌, ◌++◌, arith, ◌==◌, length, take, drop, length-append,
}
use rpi_atmega324_modbus_gat.Prelude.Result.{ok, ok_inj}
use rpi_atmega324_modbus_gat.Modbus.Frame.Text.{AreBytes, drop-append}
use rpi_atmega324_modbus_gat.Users.Attribute.{
  Text, same_text, starts_with, same_text-eq, same_text_refl,
}
use rpi_atmega324_modbus_gat.Users.Password.{
  Library, ssha, hexstr_to_bytes, hex_byte, hex_digit, digest, of_hash, of_password, without_plain,
  absent, typed_array, new_ldap_password, verify_ldap,
}

-- What the code relies on of the packages: atob undoes btoa on bytes, and a SHA-1 has 40 digits.
abbrev pub DecodesBase64 : Library → Type 0
DecodesBase64 lib = (bs : List ℕ) → AreBytes bs → lib.from_base64 (lib.to_base64 bs) ≡ bs

abbrev pub HasSha1Length : Library → Type 0
HasSha1Length lib = (bs : List ℕ) → length (lib.sha1_hex bs) ≡ 40

hex_byte-lt : (a b : Option ℕ) → hex_byte a b < 256
hex_byte-lt none b = omega arith
hex_byte-lt (some a) none = omega arith
hex_byte-lt (some a) (some b) = omega arith

hexstr-AreBytes : (t : Text) → AreBytes (hexstr_to_bytes t)
unfolding hexstr_to_bytes
hexstr-AreBytes [] = tt
hexstr-AreBytes (a ∷ []) = tt
hexstr-AreBytes (a ∷ b ∷ s) = (hex_byte-lt (hex_digit a) (hex_digit b), hexstr-AreBytes s)

length-hexstr : (t : Text) → length (hexstr_to_bytes t) ≡ length t / 2
unfolding hexstr_to_bytes
length-hexstr [] = omega arith
length-hexstr (a ∷ []) = omega arith
length-hexstr (a ∷ b ∷ s) = omega (arith, length-hexstr s)

AreBytes-append : (xs ys : List ℕ) → AreBytes xs → AreBytes ys → AreBytes (xs ++ ys)
AreBytes-append [] ys h k = k
AreBytes-append (x ∷ xs) ys (h, hs) k = (h, AreBytes-append xs ys hs k)

take-append : (n : ℕ) (xs ys : List ℕ) → length xs ≡ n → take n (xs ++ ys) ≡ xs
take-append zero [] ys h = refl
take-append zero (x ∷ xs) ys h = absurd (omega arith)
take-append (suc n) [] ys h = absurd (omega arith)
take-append (suc n) (x ∷ xs) ys h = ap (λ (t : List ℕ). x ∷ t) (take-append n xs ys (omega arith))

module _ (lib : Library) (decodes : DecodesBase64 lib) (sha1 : HasSha1Length lib) (salt : List ℕ)
    (salt_bytes : AreBytes salt) (salt_length : length salt ≡ 4) where
  -- The text that the constructor makes of a password with this salt.
  abbrev pub stored : Text → Text
  stored p = ssha ++ lib.to_base64 (digest lib p salt ++ salt)

  digest-AreBytes : (p : Text) → AreBytes (digest lib p salt ++ salt)
  unfolding digest
  digest-AreBytes p =
      AreBytes-append (digest lib p salt) salt
        (hexstr-AreBytes (lib.sha1_hex (lib.utf8 (without_plain p) ++ salt))) salt_bytes

  length-digest : (p : Text) → length (digest lib p salt) ≡ 20
  unfolding digest
  length-digest p =
      length-hexstr (lib.sha1_hex (lib.utf8 (without_plain p) ++ salt))
      ∙ ap (λ (n : ℕ). n / 2) (sha1 (lib.utf8 (without_plain p) ++ salt))

  whole :
      (p : Text)
      → of_hash lib (stored p) (digest lib p salt ++ salt)
        ≡ ok (record {
          slapd_password_hash = stored p;
          salt_bytes = salt;
          sha1_bytes = digest lib p salt;
        })
  whole p =
      let n : (length (digest lib p salt ++ salt) == 24) ≡ true =
        ground (arith, length-append (digest lib p salt) salt, length-digest p) in
      rw
        (
          n,
          take-append 20 (digest lib p salt) salt (length-digest p),
          drop-append (digest lib p salt) salt 20 (sym (length-digest p)),
        )
        refl

  -- A stored text is taken apart into the digest and the salt.
  stored-apart :
      (p : Text)
      → new_ldap_password lib (stored p) absent
        ≡ ok (record {
          slapd_password_hash = stored p;
          salt_bytes = salt;
          sha1_bytes = digest lib p salt;
        })
  unfolding new_ldap_password
  stored-apart p =
      ap (of_hash lib (stored p)) (decodes (digest lib p salt ++ salt) (digest-AreBytes p))
      ∙ whole p

  from_test :
      (q : Text)
      → starts_with ssha q ≡ false
      → new_ldap_password lib q (typed_array salt) ≡ ok (of_password lib q salt)
  unfolding new_ldap_password
  from_test q h = rw h refl

  compared :
      (p q : Text)
      → starts_with ssha q ≡ false
      → verify_ldap lib (stored p) q ≡ ok (same_text (stored p) (stored q))
  unfolding verify_ldap
  compared p q h =
      let first = stored-apart p in
      let second : new_ldap_password lib q (typed_array salt) ≡ ok (of_password lib q salt) =
        from_test q h in
      rw (first, second) refl

  same_stored : (p q : Text) → stored p ≡ stored q → digest lib q salt ≡ digest lib p salt
  same_stored p q e =
      let bytes : digest lib p salt ++ salt ≡ digest lib q salt ++ salt =
        sym (decodes _ (digest-AreBytes p))
        ∙ ap (λ (t : Text). lib.from_base64 (drop 6 t)) e
        ∙ decodes _ (digest-AreBytes q) in
      sym (take-append 20 (digest lib q salt) salt (length-digest q))
      ∙ sym (ap (take 20) bytes)
      ∙ take-append 20 (digest lib p salt) salt (length-digest p)

  -- The hash that the constructor makes of a password and four bytes of salt accepts exactly the passwords
  -- with the same salted SHA-1, among them the password itself; those that begin with {SSHA} are left out.
  -- Used are that atob undoes btoa and that a SHA-1 has 40 digits.
  pub verify_ldap_iff :
      (p q : Text)
      → starts_with ssha q ≡ false
      → (verify_ldap lib (stored p) q ≡ ok true) ↔ (digest lib q salt ≡ digest lib p salt)
  verify_ldap_iff p q h = (
    (λ accepted.
        same_stored p q
          (same_text-eq (stored p) (stored q) (ok_inj (sym (compared p q h) ∙ accepted)))),
    (λ same.
        compared p q h
        ∙ ap (λ (d : List ℕ). ok (same_text (stored p) (ssha ++ lib.to_base64 (d ++ salt)))) same
        ∙ ap ok (same_text_refl (stored p))),
  )
