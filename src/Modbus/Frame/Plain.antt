-- ===== src/Modbus/Frame/Plain.antt =====
-- The characters of a frame's text between its colon and its line feed, which a serial driver
-- (modbus-serial.ts) collects without looking at them.
use rpi_atmega324_modbus_gat.Prelude.{
  ℕ, ◌/◌, ◌%◌, ◌<◌, ◌≡◌, sym, ap, ◌≢◌, true, List, [], ◌∷◌, ◌++◌, arith,
}
use mathlib.Core.List.{append_assoc}
use rpi_atmega324_modbus_gat.Modbus.Hex.{is_hex, hex_char, is_hex-hex_char}
use rpi_atmega324_modbus_gat.Modbus.Frame.Text.{AreBytes, hex_text, frame_text}

abbrev pub IsPlain : ℕ → Type 0
IsPlain c = (c ≢ b':') × (c ≢ 10)

abbrev pub ArePlain : List ℕ → Type 0
ArePlain [] = Unit
ArePlain (c ∷ cs) = IsPlain c × ArePlain cs

pub is_hex-IsPlain : (c : ℕ) → is_hex c ≡ true → IsPlain c
unfolding is_hex
is_hex-IsPlain c h = ground arith

pub ArePlain-append : (xs ys : List ℕ) → ArePlain xs → ArePlain ys → ArePlain (xs ++ ys)
ArePlain-append [] ys h k = k
ArePlain-append (x ∷ xs) ys (h, hs) k = (h, ArePlain-append xs ys hs k)

pub digits-ArePlain : (bs : List ℕ) → AreBytes bs → ArePlain (hex_text bs)
digits-ArePlain [] h = tt
digits-ArePlain (b ∷ bs) (h, hs) = (
  is_hex-IsPlain _ (is_hex-hex_char (b / 16) (omega arith)),
  (is_hex-IsPlain _ (is_hex-hex_char (b % 16) (omega arith)), digits-ArePlain bs hs),
)

-- The colon and all that stands between it and the line feed.
abbrev pub inner : List ℕ → ℕ → List ℕ
inner bs c = hex_text bs ++ hex_char (c / 16) ∷ hex_char (c % 16) ∷ 13 ∷ []

pub inner-ArePlain : (bs : List ℕ) (c : ℕ) → AreBytes bs → c < 256 → ArePlain (inner bs c)
inner-ArePlain bs c h k = ArePlain-append (hex_text bs) _ (digits-ArePlain bs h) (
  is_hex-IsPlain _ (is_hex-hex_char (c / 16) (omega arith)),
  (is_hex-IsPlain _ (is_hex-hex_char (c % 16) (omega arith)), ((omega arith, omega arith), tt)),
)

pub frame_text-inner : (bs : List ℕ) (c : ℕ) → frame_text bs c ≡ b':' ∷ (inner bs c ++ 10 ∷ [])
frame_text-inner bs c =
    ap (λ t. b':' ∷ t)
      (sym (append_assoc (hex_text bs) (hex_char (c / 16) ∷ hex_char (c % 16) ∷ 13 ∷ []) (10 ∷ [])))
