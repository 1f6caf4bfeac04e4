-- ===== src/Modbus/Frame/Text.antt =====
-- The text of a frame, as a description that neither branch of the constructor computes with:
-- both branches of modbus-ascii-frame.ts are measured against it.
use rpi_atmega324_modbus_gat.Prelude.{
  ℕ, zero, suc, ◌-◌, ◌*◌, ◌/◌, ◌%◌, ◌<◌, ◌≡◌, refl, true, List, [], ◌∷◌, ◌++◌, arith, length,
  length-append, drop, lt→ltb,
}
use rpi_atmega324_modbus_gat.Modbus.Hex.{
  is_hex, hex_char, parse_int16, PrintsBytes, is_hex-hex_char, parse_int16-hex_char, parse_int16-lt,
  parse_int16-div, parse_int16-mod,
}
use rpi_atmega324_modbus_gat.Modbus.Frame.{print_bytes, matches_pairs, parse_bytes, parse_check}

-- Every element is a byte.
abbrev pub AreBytes : List ℕ → Type 0
AreBytes [] = Unit
AreBytes (b ∷ bs) = (b < 256) × AreBytes bs

-- Two digits for each byte.
abbrev pub hex_text : List ℕ → List ℕ
hex_text [] = []
hex_text (b ∷ bs) = hex_char (b / 16) ∷ hex_char (b % 16) ∷ hex_text bs

-- The frame of a payload with a check byte.
abbrev pub frame_text : List ℕ → ℕ → List ℕ
frame_text bs c = b':' ∷ (hex_text bs ++ hex_char (c / 16) ∷ hex_char (c % 16) ∷ 13 ∷ 10 ∷ [])

pub length-hex_text : (bs : List ℕ) → length (hex_text bs) ≡ 2 * length bs
length-hex_text [] = omega arith
length-hex_text (b ∷ bs) = omega (arith, length-hex_text bs)

pub hex_text-append : (xs bs : List ℕ) → hex_text (xs ++ bs) ≡ hex_text xs ++ hex_text bs
hex_text-append [] bs = refl
hex_text-append (a ∷ xs) bs = rw (hex_text-append xs bs)

pub print_bytes-eq :
    (fmt : ℕ → List ℕ)
    → PrintsBytes fmt
    → (bs : List ℕ) → AreBytes bs
    → print_bytes fmt bs ≡ hex_text bs
unfolding print_bytes
print_bytes-eq fmt p [] h = refl
print_bytes-eq fmt p (b ∷ bs) (h, hs) = rw (p b h, print_bytes-eq fmt p bs hs)

pub matches_pairs-hex_text :
    (bs : List ℕ) → AreBytes bs → matches_pairs (hex_text bs ++ 13 ∷ 10 ∷ []) ≡ true
unfolding matches_pairs
matches_pairs-hex_text [] h = refl
matches_pairs-hex_text (b ∷ []) (h, hs) =
    rw (is_hex-hex_char (b / 16) (omega arith), is_hex-hex_char (b % 16) (omega arith))
matches_pairs-hex_text (b ∷ c ∷ bs) (h, hs) =
    rw (is_hex-hex_char (b / 16) (omega arith), is_hex-hex_char (b % 16) (omega arith))
      (matches_pairs-hex_text (c ∷ bs) hs)

pub parse_bytes-hex_text :
    (bs : List ℕ) (x y : ℕ) → AreBytes bs → parse_bytes (hex_text bs ++ x ∷ y ∷ 13 ∷ 10 ∷ []) ≡ bs
unfolding parse_bytes
parse_bytes-hex_text [] x y h = refl
parse_bytes-hex_text (b ∷ bs) x y (h, hs) = rw (
  lt→ltb 2 (length (hex_text bs ++ x ∷ y ∷ 13 ∷ 10 ∷ []))
      (omega (arith, length-append (hex_text bs) (x ∷ y ∷ 13 ∷ 10 ∷ []))),
  parse_int16-hex_char b h,
  parse_bytes-hex_text bs x y hs,
)

pub drop-append {ℓ} : {A : Type ℓ} (xs ys : List A) (n : ℕ) → n ≡ length xs → drop n (xs ++ ys) ≡ ys
drop-append [] ys zero h = refl
drop-append [] ys (suc n) h = absurd (omega arith)
drop-append (x ∷ xs) ys zero h = absurd (omega arith)
drop-append (x ∷ xs) ys (suc n) h = drop-append xs ys n (omega arith)

pub parse_check-frame_text : (bs : List ℕ) (c : ℕ) → c < 256 → parse_check (frame_text bs c) ≡ c
unfolding parse_check
parse_check-frame_text bs c h =
    let t : List ℕ = hex_char (c / 16) ∷ hex_char (c % 16) ∷ 13 ∷ 10 ∷ [] in
    rw
      (drop-append (b':' ∷ hex_text bs) t (length (frame_text bs c) - 4)
        (omega (arith, length-append (hex_text bs) t)))
      (parse_int16-hex_char c h)

-- A text that the pattern's repetition accepts is the digits of some bytes.
pub matches_pairs-inv :
    (s : List ℕ)
    → matches_pairs s ≡ true
    → (bs : List ℕ) × AreBytes bs × (s ≡ hex_text bs ++ 13 ∷ 10 ∷ [])
unfolding matches_pairs
matches_pairs-inv [] h = cc
matches_pairs-inv (a ∷ []) h = cc
matches_pairs-inv (a ∷ b ∷ []) h = ([], tt, ground arith)
matches_pairs-inv (a ∷ b ∷ c ∷ s) h =
    let (bs, ok, e) = matches_pairs-inv (c ∷ s) (ground arith) in
    let p : is_hex a ≡ true = ground arith in
    let q : is_hex b ≡ true = ground arith in
    (
      parse_int16 a b ∷ bs,
      (parse_int16-lt a b p q, ok),
      rw (parse_int16-div a b p q, parse_int16-mod a b p q, e),
    )
