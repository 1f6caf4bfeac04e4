-- ===== src/EgoHeater/Frame.antt =====
-- software/rpi/egoHeater/server/src/modbus/modbus-ascii-frame.ts: its constructor, and how it compares with
-- the one of the nibe1155 server (Modbus/Frame), with which it shares the loops and the regular expression.
-- Its check byte is not reduced modulo 256.
use rpi_atmega324_modbus_gat.Prelude.{
  ℕ, ◌+◌, ◌-◌, ◌*◌, ◌/◌, ◌%◌, ◌<◌, ◌≡◌, refl, ◌∙◌, subst, ◌≢◌, ap, inl, inr, Bool, true, false,
  ◌&&◌, Option, none, some, List, [], ◌∷◌, ◌++◌, arith, leb, ◌==◌, if◌then◌else◌, length,
  length-append, drop, Bool-cases, some_inj,
}
use rpi_atmega324_modbus_gat.Modbus.Hex.{is_hex, hex_char, parse_int16, PrintsBytes}
use rpi_atmega324_modbus_gat.Modbus.Frame
use rpi_atmega324_modbus_gat.Modbus.Frame.{
  ModbusAsciiFrame, FrameArgument, of_buffer, of_string, absent, lrc_from, print_bytes,
  matches_frame, parse_bytes, parse_check,
}
use rpi_atmega324_modbus_gat.Modbus.Frame.Text.{
  AreBytes, hex_text, frame_text, parse_check-frame_text, length-hex_text, print_bytes-eq,
}
use rpi_atmega324_modbus_gat.Modbus.Frame.Laws.{sum, lrc_from-eq-sum, new_frame-ParsedFrom}

-- `(255 - lrc) + 1`.
unfoldable pub lrc_check : ℕ → ℕ
lrc_check lrc = 255 - lrc + 1

-- The constructor; `none` is the thrown 'illegal argument'.
unfoldable pub new_frame : (ℕ → List ℕ) → ℕ → FrameArgument → Option ModbusAsciiFrame
unfolding lrc_from lrc_check print_bytes matches_frame parse_bytes parse_check is_hex parse_int16
new_frame fmt now (of_buffer x) =
    if leb 2 (length x)
    then some (record {
      at = now;
      frame = (b':' ∷ print_bytes fmt x) ++ (fmt (lrc_check (lrc_from 0 x)) ++ 13 ∷ 10 ∷ []);
      buffer = x;
      lrc_ok = true;
    })
    else none
new_frame fmt now (of_string x) =
    if leb 9 (length x) && matches_frame x
    then (let bytes = parse_bytes (drop 1 x) in
        some (record {
          at = now;
          frame = x;
          buffer = bytes;
          lrc_ok = parse_check x == lrc_check (lrc_from 0 bytes);
        }))
    else none
new_frame fmt now absent = none

-- The bytes that the check byte is made of.
abbrev pub payload : FrameArgument → List ℕ
payload (of_buffer x) = x
payload (of_string x) = parse_bytes (drop 1 x)
payload absent = []

-- The frame of an accepted argument.
abbrev frame_if : Bool → ℕ → List ℕ → List ℕ → Bool → Option ModbusAsciiFrame
frame_if accepted now text bytes good =
    if accepted
    then some (record { at = now; frame = text; buffer = bytes; lrc_ok = good })
    else none

same_check :
    (bs : List ℕ) → sum bs % 256 ≢ 0 → lrc_check (lrc_from 0 bs) ≡ Frame.lrc_check (lrc_from 0 bs)
unfolding lrc_check Frame.lrc_check
same_check bs h = omega (arith, lrc_from-eq-sum 0 bs (omega arith), h)

-- The two constructors give the same frame, or both throw, for every buffer and text whose bytes do not
-- add up to 0 modulo 256.
pub new_frame-agrees :
    (fmt : ℕ → List ℕ) (now : ℕ) (x : FrameArgument)
    → sum (payload x) % 256 ≢ 0
    → new_frame fmt now x ≡ Frame.new_frame fmt now x
unfolding new_frame Frame.new_frame
new_frame-agrees fmt now (of_buffer x) h =
    ap
      (λ (c : ℕ).
        frame_if (leb 2 (length x)) now ((b':' ∷ print_bytes fmt x) ++ (fmt c ++ 13 ∷ 10 ∷ [])) x
          true)
      (same_check x h)
new_frame-agrees fmt now (of_string x) h =
    ap
      (λ (c : ℕ).
        frame_if (leb 9 (length x) && matches_frame x) now x (parse_bytes (drop 1 x))
          (parse_check x == c))
      (same_check (parse_bytes (drop 1 x)) h)
new_frame-agrees fmt now absent h = refl

-- A text and its frame: the text's digits give the bytes and a check byte.
abbrev pub IsFrameOf : ModbusAsciiFrame → List ℕ → ℕ → Type 0
IsFrameOf f x c =
    AreBytes f.buffer
    × (c < 256)
    × (x ≡ frame_text f.buffer c)
    × (f.lrc_ok ≡ (c == lrc_check (lrc_from 0 f.buffer)))
    × (parse_check x ≡ c)

abbrev read_frame : ℕ → List ℕ → Bool → ModbusAsciiFrame
read_frame now x good = record {
  at = now;
  frame = x;
  buffer = parse_bytes (drop 1 x);
  lrc_ok = good;
}

pub of_string-IsFrameOf :
    (fmt : ℕ → List ℕ) (now : ℕ) (x : List ℕ) (f : ModbusAsciiFrame)
    → new_frame fmt now (of_string x) ≡ some f
    → (c : ℕ) × IsFrameOf f x c
unfolding new_frame Frame.new_frame
of_string-IsFrameOf fmt now x f h = elim (Bool-cases (leb 9 (length x) && matches_frame x)) [
  | inr e ↦ absurd (ground arith)
  | inl e ↦
      (let good = parse_check x == Frame.lrc_check (lrc_from 0 (parse_bytes (drop 1 x))) in
        let accepted : Frame.new_frame fmt now (of_string x) ≡ some (read_frame now x good) =
          rw e refl in
        let (c, (ok, k, l, text, same, g)) =
          new_frame-ParsedFrom fmt now x (read_frame now x good) accepted in
        let check : parse_check x ≡ c =
          ap parse_check text ∙ parse_check-frame_text (parse_bytes (drop 1 x)) c k in
        let found : read_frame now x
              (parse_check x == lrc_check (lrc_from 0 (parse_bytes (drop 1 x))))
            ≡ f =
          some_inj (rw e at h) in
        (
          c,
          subst (λ g. IsFrameOf g x c) found
              (
                ok,
                k,
                text,
                ap (λ (d : ℕ). d == lrc_check (lrc_from 0 (parse_bytes (drop 1 x)))) check,
                check,
              ),
        ))
]

-- Where the bytes of an accepted text add up to 0 modulo 256, `lrcOk` is false whatever its check byte is;
-- the constructor of the nibe1155 server finds the check byte 0 right.
pub zero_sum_never_ok :
    (fmt : ℕ → List ℕ) (now : ℕ) (x : List ℕ) (f : ModbusAsciiFrame)
    → new_frame fmt now (of_string x) ≡ some f
    → sum f.buffer % 256 ≡ 0
    → f.lrc_ok ≡ false
unfolding lrc_check
zero_sum_never_ok fmt now x f h z =
    let (c, (ok, k, text, good, check)) = of_string-IsFrameOf fmt now x f h in
    ground (arith, good, lrc_from-eq-sum 0 f.buffer (omega arith))

length-frame_text : (bs : List ℕ) (c : ℕ) → length (frame_text bs c) ≡ 2 * length bs + 5
length-frame_text bs c = omega (
  arith,
  length-hex_text bs,
  length-append (hex_text bs) (hex_char (c / 16) ∷ hex_char (c % 16) ∷ 13 ∷ 10 ∷ []),
)

-- An accepted text has an odd number of characters.
accepted_length :
    (fmt : ℕ → List ℕ) (now : ℕ) (x : List ℕ)
    → leb 9 (length x) && matches_frame x ≡ true
    → (n : ℕ) × (length x ≡ 2 * n + 5)
unfolding Frame.new_frame
accepted_length fmt now x e =
    let f =
      read_frame now x (parse_check x == Frame.lrc_check (lrc_from 0 (parse_bytes (drop 1 x)))) in
    let accepted : Frame.new_frame fmt now (of_string x) ≡ some f = rw e refl in
    let (c, (ok, k, l, text, same, g)) = new_frame-ParsedFrom fmt now x f accepted in
    (length f.buffer, ap length text ∙ length-frame_text f.buffer c)

written_length :
    (fmt : ℕ → List ℕ) (bs : List ℕ)
    → PrintsBytes fmt
    → fmt 256 ≡ b'1' ∷ b'0' ∷ b'0' ∷ []
    → AreBytes bs
    → sum bs % 256 ≡ 0
    → length ((b':' ∷ print_bytes fmt bs) ++ (fmt (lrc_check (lrc_from 0 bs)) ++ 13 ∷ 10 ∷ []))
      ≡ 2 * length bs + 6
unfolding lrc_check
written_length fmt bs p h ok z =
    let zero_sum : 255 - lrc_from 0 bs + 1 ≡ 256 =
      omega (arith, lrc_from-eq-sum 0 bs (omega arith)) in
    rw (zero_sum, h, print_bytes-eq fmt p bs ok)
      (omega (
        arith,
        length-hex_text bs,
        length-append (hex_text bs) (b'1' ∷ b'0' ∷ b'0' ∷ 13 ∷ 10 ∷ []),
      ))

-- A buffer of two or more bytes that add up to 0 modulo 256, where sprintf prints a byte with two digits
-- and 256 with three: the frame that is built from it is refused by both constructors.
pub zero_sum_refused :
    (fmt : ℕ → List ℕ) (now : ℕ) (bs : List ℕ) (f : ModbusAsciiFrame)
    → PrintsBytes fmt
    → fmt 256 ≡ b'1' ∷ b'0' ∷ b'0' ∷ []
    → AreBytes bs
    → sum bs % 256 ≡ 0
    → new_frame fmt now (of_buffer bs) ≡ some f
    → (new_frame fmt now (of_string f.frame) ≡ none)
      × (Frame.new_frame fmt now (of_string f.frame) ≡ none)
unfolding new_frame Frame.new_frame
zero_sum_refused fmt now bs f p h ok z built =
    let x : List ℕ =
      (b':' ∷ print_bytes fmt bs) ++ (fmt (lrc_check (lrc_from 0 bs)) ++ 13 ∷ 10 ∷ []) in
    let text : f.frame ≡ x = ground arith in
    rw text (elim (Bool-cases (leb 9 (length x) && matches_frame x)) [
      | inl e ↦
          (let (n, l) = accepted_length fmt now x e in
            absurd (omega (arith, l, written_length fmt bs p h ok z)))
      | inr e ↦ (rw e refl, rw e refl)
    ])
