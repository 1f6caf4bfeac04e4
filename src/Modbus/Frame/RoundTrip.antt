-- ===== src/Modbus/Frame/RoundTrip.antt =====
-- The two branches of the ModbusAsciiFrame constructor undo each other, and a changed byte is noticed.
use rpi_atmega324_modbus_gat.Prelude.{
  ℕ, zero, suc, ◌+◌, ◌%◌, ◌≤◌, ◌<◌, ◌≡◌, refl, sym, ap, ◌∙◌, subst, ◌≢◌, ◌↔◌, inl, inr, true, false,
  some, List, [], ◌∷◌, ◌++◌, arith, leb, ◌==◌, length, get_elem?, set, length-set, Bool-cases,
  some_inj, leb→le, ==_iff,
}
use rpi_atmega324_modbus_gat.Modbus.Hex.{PrintsBytes}
use rpi_atmega324_modbus_gat.Modbus.Frame.{
  ModbusAsciiFrame, of_buffer, of_string, lrc_from, lrc_check, print_bytes, new_frame,
}
use rpi_atmega324_modbus_gat.Modbus.Frame.Text.{AreBytes, frame_text, print_bytes-eq}
use rpi_atmega324_modbus_gat.Modbus.Frame.Laws.{
  sum, lrc_check-lt, lrc_check_iff, new_frame-frame_text, new_frame-ParsedFrom,
}

-- The frame that the bytes `x` are written as.
abbrev frame_of : ℕ → List ℕ → ModbusAsciiFrame
frame_of now x = record {
  at = now;
  frame = frame_text x (lrc_check (lrc_from 0 x));
  buffer = x;
  lrc_ok = true;
}

long_of_some :
    (fmt : ℕ → List ℕ) (now : ℕ) (x : List ℕ) (f : ModbusAsciiFrame)
    → new_frame fmt now (of_buffer x) ≡ some f
    → 2 ≤ length x
unfolding new_frame
long_of_some fmt now x f h = elim (Bool-cases (leb 2 (length x))) [
  | inl e ↦ leb→le _ _ e
  | inr e ↦ ground arith
]

written_text :
    (fmt : ℕ → List ℕ) (x : List ℕ)
    → PrintsBytes fmt
    → AreBytes x
    → (b':' ∷ print_bytes fmt x) ++ (fmt (lrc_check (lrc_from 0 x)) ++ 13 ∷ 10 ∷ [])
      ≡ frame_text x (lrc_check (lrc_from 0 x))
written_text fmt x p ok =
    rw (p (lrc_check (lrc_from 0 x)) (lrc_check-lt _), print_bytes-eq fmt p x ok)

new_frame-of_buffer :
    (fmt : ℕ → List ℕ) (now : ℕ) (x : List ℕ)
    → PrintsBytes fmt
    → AreBytes x
    → 2 ≤ length x
    → new_frame fmt now (of_buffer x) ≡ some (frame_of now x)
unfolding new_frame
new_frame-of_buffer fmt now x p ok l =
    let t : leb 2 (length x) ≡ true = ground arith in rw (t, written_text fmt x p ok)

written :
    (fmt : ℕ → List ℕ) (now : ℕ) (x : List ℕ) (f : ModbusAsciiFrame)
    → PrintsBytes fmt
    → AreBytes x
    → new_frame fmt now (of_buffer x) ≡ some f
    → (2 ≤ length x) × (f ≡ frame_of now x)
written fmt now x f p ok h =
    let l = long_of_some fmt now x f h in
    (l, some_inj (sym h ∙ new_frame-of_buffer fmt now x p ok l))

-- A frame made from two or more bytes is accepted when it is read, and gives back the same bytes and
-- text with a right check byte.
pub decode-encode :
    (fmt : ℕ → List ℕ) (now later : ℕ) (x : List ℕ) (f : ModbusAsciiFrame)
    → PrintsBytes fmt
    → AreBytes x
    → new_frame fmt now (of_buffer x) ≡ some f
    → new_frame fmt later (of_string f.frame) ≡ some (record f { at = later })
decode-encode fmt now later x f p ok h =
    let (l, e) = written fmt now x f p ok h in
    subst (λ g. new_frame fmt later (of_string g.frame) ≡ some (record g { at = later })) (sym e)
      (new_frame-frame_text fmt later x (lrc_check (lrc_from 0 x)) ok (lrc_check-lt _) l
        ∙ ap (λ b. some (record (frame_of now x) { at = later; lrc_ok = b })) ((==_iff _ _).1 refl))

parsed_parts :
    (fmt : ℕ → List ℕ) (now : ℕ) (x : List ℕ) (f : ModbusAsciiFrame)
    → new_frame fmt now (of_string x) ≡ some f
    → (c : ℕ) × AreBytes f.buffer
      × (c < 256)
      × (2 ≤ length f.buffer)
      × (x ≡ frame_text f.buffer c)
      × (f.frame ≡ x)
      × ((f.lrc_ok ≡ true) ↔ ((sum f.buffer + c) % 256 ≡ 0))
parsed_parts fmt now x f h =
    let (c, parts) = new_frame-ParsedFrom fmt now x f h in
    (c, parts.0, parts.1, parts.2, parts.3, parts.4, parts.5)

-- A text that is read with a right check byte is the one that its bytes are written as.
pub encode-decode :
    (fmt : ℕ → List ℕ) (now later : ℕ) (x : List ℕ) (f : ModbusAsciiFrame)
    → PrintsBytes fmt
    → new_frame fmt now (of_string x) ≡ some f
    → f.lrc_ok ≡ true
    → new_frame fmt later (of_buffer f.buffer) ≡ some (record f { at = later })
encode-decode fmt now later x f p h ok =
    let (c, bytes, k, l, e, same, right) = parsed_parts fmt now x f h in
    let check : lrc_check (lrc_from 0 f.buffer) ≡ c =
      sym ((lrc_check_iff f.buffer c k).1 (right.0 ok)) in
    new_frame-of_buffer fmt later f.buffer p bytes l ∙ λ i. some (record {
      at = later;
      frame = (ap (frame_text f.buffer) check ∙ (sym e ∙ sym same)) i;
      buffer = f.buffer;
      lrc_ok = sym ok i;
    })

AreBytes-set : (i v : ℕ) (x : List ℕ) → AreBytes x → v < 256 → AreBytes (set x i v)
AreBytes-set i v [] h k = tt
AreBytes-set zero v (b ∷ x) (h, hs) k = (k, hs)
AreBytes-set (suc i) v (b ∷ x) (h, hs) k = (h, AreBytes-set i v x hs k)

AreBytes-get : (i w : ℕ) (x : List ℕ) → AreBytes x → get_elem? x i ≡ some w → w < 256
AreBytes-get i w [] h e = cc
AreBytes-get zero w (b ∷ x) (h, hs) e = rw (← some_inj e) h
AreBytes-get (suc i) w (b ∷ x) (h, hs) e = AreBytes-get i w x hs e

sum-set : (i v w : ℕ) (x : List ℕ) → get_elem? x i ≡ some w → sum (set x i v) + w ≡ sum x + v
sum-set i v w [] e = cc
sum-set zero v w (b ∷ x) e = omega (arith, some_inj e)
sum-set (suc i) v w (b ∷ x) e = omega (arith, sum-set i v w x e)

-- A changed data byte is noticed: where one byte of a payload of two or more is another byte than the
-- one that the check byte was made for, the text is read with `lrcOk` false.
pub changed_byte_detected :
    (fmt : ℕ → List ℕ) (later i v w : ℕ) (x : List ℕ) (f : ModbusAsciiFrame)
    → AreBytes x
    → 2 ≤ length x
    → get_elem? x i ≡ some w
    → v < 256
    → v ≢ w
    → new_frame fmt later (of_string (frame_text (set x i v) (lrc_check (lrc_from 0 x)))) ≡ some f
    → f.lrc_ok ≡ false
changed_byte_detected fmt later i v w x f h l e k ne p =
    let c = lrc_check (lrc_from 0 x) in
    let y = set x i v in
    let n : 2 ≤ length y = omega (arith, length-set x i v) in
    let built = new_frame-frame_text fmt later y c (AreBytes-set i v x h k) (lrc_check-lt _) n in
    elim (Bool-cases (c == lrc_check (lrc_from 0 y))) [
      | inl same ↦ absurd (
          ne (
            omega (
              arith,
              sum-set i v w x e,
              AreBytes-get i w x h e,
              (lrc_check_iff x c (lrc_check-lt _)).0 refl,
              (lrc_check_iff y c (lrc_check-lt _)).0 ((==_iff _ _).0 same),
            )))
      | inr other ↦ ap (λ (g : ModbusAsciiFrame). g.lrc_ok) (some_inj (sym p ∙ built)) ∙ other
    ]
