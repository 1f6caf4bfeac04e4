-- ===== src/Modbus/Hex.antt =====
-- The characters of a Modbus ASCII frame (modbus-ascii-frame.ts): upper case hexadecimal digits,
-- as `%02X` of the package sprintf-js prints them and as `parseInt(s, 16)` reads them.
use rpi_atmega324_modbus_gat.Prelude.{
  ℕ, ◌+◌, ◌-◌, ◌*◌, ◌/◌, ◌%◌, ◌<◌, ◌≡◌, refl, Bool, true, false, ◌&&◌, ◌||◌, List, [], ◌∷◌, arith,
  ltb, leb, if◌then◌else◌,
}

-- `[0-9A-F]`.
unfoldable pub is_hex : ℕ → Bool
is_hex c = leb b'0' c && leb c b'9' || leb b'A' c && leb c b'F'

-- The digit that a character of `[0-9A-F]` stands for.
unfoldable pub hex_value : ℕ → ℕ
hex_value c = if leb c b'9' then c - b'0' else c - 55

-- The character of a digit below 16.
unfoldable pub hex_char : ℕ → ℕ
hex_char d = if ltb d 10 then d + b'0' else d + 55

-- `parseInt(s, 16)` of two digits.
unfoldable pub parse_int16 : ℕ → ℕ → ℕ
parse_int16 a b = hex_value a * 16 + hex_value b

-- What the frames rely on of sprintf's `%02X`: two digits for a byte.
abbrev pub PrintsBytes : (ℕ → List ℕ) → Type 0
PrintsBytes fmt = (b : ℕ) → b < 256 → fmt b ≡ hex_char (b / 16) ∷ hex_char (b % 16) ∷ []

pub is_hex-hex_char : (d : ℕ) → d < 16 → is_hex (hex_char d) ≡ true
unfolding is_hex hex_char
is_hex-hex_char d h = ground arith

pub hex_value-hex_char : (d : ℕ) → d < 16 → hex_value (hex_char d) ≡ d
unfolding hex_value hex_char
hex_value-hex_char d h = ground arith

pub hex_char-hex_value : (c : ℕ) → is_hex c ≡ true → hex_char (hex_value c) ≡ c
unfolding hex_value hex_char is_hex
hex_char-hex_value c h = ground arith

pub hex_value-lt : (c : ℕ) → is_hex c ≡ true → hex_value c < 16
unfolding hex_value is_hex
hex_value-lt c h = ground arith

pub parse_int16-hex_char :
    (b : ℕ) → b < 256 → parse_int16 (hex_char (b / 16)) (hex_char (b % 16)) ≡ b
unfolding parse_int16
parse_int16-hex_char b h =
    omega
      (arith, hex_value-hex_char (b / 16) (omega arith), hex_value-hex_char (b % 16) (omega arith))

pub parse_int16-lt : (a b : ℕ) → is_hex a ≡ true → is_hex b ≡ true → parse_int16 a b < 256
unfolding parse_int16
parse_int16-lt a b p q = omega (arith, hex_value-lt a p, hex_value-lt b q)

-- Printing what was parsed gives the characters back.
pub parse_int16-div :
    (a b : ℕ) → is_hex a ≡ true → is_hex b ≡ true → hex_char (parse_int16 a b / 16) ≡ a
unfolding parse_int16
parse_int16-div a b p q =
    let e : (hex_value a * 16 + hex_value b) / 16 ≡ hex_value a = omega (arith, hex_value-lt b q) in
    rw e (hex_char-hex_value a p)

pub parse_int16-mod :
    (a b : ℕ) → is_hex a ≡ true → is_hex b ≡ true → hex_char (parse_int16 a b % 16) ≡ b
unfolding parse_int16
parse_int16-mod a b p q =
    let e : (hex_value a * 16 + hex_value b) % 16 ≡ hex_value b = omega (arith, hex_value-lt b q) in
    rw e (hex_char-hex_value b q)

-- The carriage return that ends a frame is no digit.
pub is_hex_cr : is_hex 13 ≡ false
unfolding is_hex
is_hex_cr = refl
