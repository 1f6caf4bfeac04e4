-- ===== src/Modbus/Frame/Laws.antt =====
-- What the two branches of the ModbusAsciiFrame constructor promise: which texts are frames, when the
-- check byte is right, and that the branches are inverse to each other.
use rpi_atmega324_modbus_gat.Prelude.{
  ℕ, suc, ◌+◌, ◌*◌, ◌/◌, ◌%◌, ◌≤◌, ◌<◌, ◌≡◌, refl, sym, ap, ◌∙◌, subst, ◌↔◌, inl, inr, true, ◌&&◌,
  some, List, [], ◌∷◌, ◌++◌, arith, leb, ◌==◌, length, length-append, Bool-cases, and_left,
  and_right, some_inj, leb→le, ==_iff,
}
use mathlib.Core.List.{append_assoc}
use rpi_atmega324_modbus_gat.Modbus.Hex.{hex_char, is_hex-hex_char}
use rpi_atmega324_modbus_gat.Modbus.Frame.{
  ModbusAsciiFrame, of_string, lrc_from, lrc_check, matches_pairs, matches_frame, new_frame,
}
use rpi_atmega324_modbus_gat.Modbus.Frame.Text.{
  AreBytes, hex_text, frame_text, length-hex_text, hex_text-append, matches_pairs-hex_text,
  parse_bytes-hex_text, parse_check-frame_text, matches_pairs-inv,
}

abbrev pub sum : List ℕ → ℕ
sum [] = 0
sum (b ∷ bs) = b + sum bs

pub lrc_from-eq-sum : (l : ℕ) (bs : List ℕ) → l < 256 → lrc_from l bs ≡ (l + sum bs) % 256
unfolding lrc_from
lrc_from-eq-sum l [] h = omega arith
lrc_from-eq-sum l (b ∷ bs) h = omega (arith, lrc_from-eq-sum ((l + b) % 256) bs (omega arith))

lrc_from-lt : (bs : List ℕ) → lrc_from 0 bs < 256
lrc_from-lt bs = omega (arith, lrc_from-eq-sum 0 bs (omega arith))

pub lrc_check-lt : (l : ℕ) → lrc_check l < 256
unfolding lrc_check
lrc_check-lt l = omega arith

-- The check byte brings the sum of the payload to zero, and no other byte does.
pub lrc_check_iff :
    (bs : List ℕ) (c : ℕ) → c < 256 → (c ≡ lrc_check (lrc_from 0 bs)) ↔ ((sum bs + c) % 256 ≡ 0)
unfolding lrc_check
lrc_check_iff bs c h =
    let e = lrc_from-eq-sum 0 bs (omega arith) in
    ((λ p. omega (arith, p, e)), (λ p. omega (arith, p, e)))

frame_text_long : (bs : List ℕ) (c : ℕ) → length (frame_text bs c) ≡ 2 * length bs + 5
frame_text_long bs c = omega (
  arith,
  length-hex_text bs,
  length-append (hex_text bs) (hex_char (c / 16) ∷ hex_char (c % 16) ∷ 13 ∷ 10 ∷ []),
)

tail_of_check :
    (bs : List ℕ) (c : ℕ)
    → hex_text bs ++ hex_char (c / 16) ∷ hex_char (c % 16) ∷ 13 ∷ 10 ∷ []
      ≡ hex_text (bs ++ c ∷ []) ++ 13 ∷ 10 ∷ []
tail_of_check bs c = simp (hex_text-append, append_assoc)

AreBytes-append : (bs : List ℕ) (c : ℕ) → AreBytes bs → c < 256 → AreBytes (bs ++ c ∷ [])
AreBytes-append [] c h k = (k, tt)
AreBytes-append (b ∷ bs) c (h, hs) k = (h, AreBytes-append bs c hs k)

matches_frame_text :
    (bs : List ℕ) (c : ℕ)
    → AreBytes bs
    → c < 256
    → 1 ≤ length bs
    → matches_frame (frame_text bs c) ≡ true
unfolding matches_frame
matches_frame_text [] c h k l = absurd (omega arith)
matches_frame_text (b ∷ bs) c (h, hs) k l =
    rw
      (
        is_hex-hex_char (b / 16) (omega arith),
        is_hex-hex_char (b % 16) (omega arith),
        tail_of_check bs c,
      )
      (matches_pairs-hex_text (bs ++ c ∷ []) (AreBytes-append bs c hs k))

leb_long : (bs : List ℕ) (c : ℕ) → 2 ≤ length bs → leb 9 (length (frame_text bs c)) ≡ true
leb_long bs c h = ground (arith, frame_text_long bs c)

-- The text of at least two bytes and a check byte is accepted, and gives those bytes.
pub new_frame-frame_text :
    (fmt : ℕ → List ℕ) (now : ℕ) (bs : List ℕ) (c : ℕ)
    → AreBytes bs
    → c < 256
    → 2 ≤ length bs
    → new_frame fmt now (of_string (frame_text bs c))
      ≡ some (record {
        at = now;
        frame = frame_text bs c;
        buffer = bs;
        lrc_ok = c == lrc_check (lrc_from 0 bs);
      })
unfolding new_frame
new_frame-frame_text fmt now bs c h k l = rw (
  leb_long bs c l,
  matches_frame_text bs c h k (omega arith),
  parse_check-frame_text bs c k,
  parse_bytes-hex_text bs (hex_char (c / 16)) (hex_char (c % 16)) h,
)

unsnoc :
    (bs : List ℕ)
    → AreBytes bs
    → 1 ≤ length bs
    → (ys : List ℕ) × (c : ℕ) × AreBytes ys × (c < 256) × (bs ≡ ys ++ c ∷ [])
unsnoc [] h l = absurd (omega arith)
unsnoc (b ∷ []) (h, hs) l = ([], b, tt, h, refl)
unsnoc (b ∷ d ∷ bs) (h, hs) l =
    let (ys, c, ok, k, e) = unsnoc (d ∷ bs) hs (omega arith) in (b ∷ ys, c, (h, ok), k, rw e)

-- A text that the constructor's tests let through is a frame's text.
AcceptedText : List ℕ → Type 0
AcceptedText x =
    (bs : List ℕ) × (c : ℕ) × AreBytes bs × (c < 256) × (2 ≤ length bs) × (x ≡ frame_text bs c)

AcceptedText-snoc :
    (ys : List ℕ) (c : ℕ)
    → AreBytes ys
    → c < 256
    → 2 ≤ length ys
    → AcceptedText (b':' ∷ (hex_text (ys ++ c ∷ []) ++ 13 ∷ 10 ∷ []))
unfolding AcceptedText
AcceptedText-snoc ys c ok k l = (ys, c, ok, k, l, ap (λ t. b':' ∷ t) (sym (tail_of_check ys c)))

AcceptedText-text :
    (bs : List ℕ)
    → AreBytes bs
    → 3 ≤ length bs
    → AcceptedText (b':' ∷ (hex_text bs ++ 13 ∷ 10 ∷ []))
AcceptedText-text bs ok l =
    let (ys, c, ok', k, e) = unsnoc bs ok (omega arith) in
    let m : length bs ≡ length ys + 1 = omega (arith, ap length e, length-append ys (c ∷ [])) in
    subst (λ t. AcceptedText (b':' ∷ (hex_text t ++ 13 ∷ 10 ∷ []))) (sym e)
      (AcceptedText-snoc ys c ok' k (omega arith))

AcceptedText-of_pairs :
    (s : List ℕ) → 9 ≤ suc (length s) → matches_pairs s ≡ true → AcceptedText (b':' ∷ s)
AcceptedText-of_pairs s l h =
    let (bs, ok, e) = matches_pairs-inv s h in
    let n : length s ≡ 2 * length bs + 2 =
      omega (arith, ap length e, length-append (hex_text bs) (13 ∷ 10 ∷ []), length-hex_text bs) in
    subst (λ t. AcceptedText (b':' ∷ t)) (sym e) (AcceptedText-text bs ok (omega arith))

colon_test :
    (x a b c : ℕ) (s : List ℕ)
    → matches_frame (x ∷ a ∷ b ∷ c ∷ s) ≡ true
    → (x ≡ b':') × (matches_pairs (a ∷ b ∷ c ∷ s) ≡ true)
unfolding matches_frame
colon_test x a b c s h = ground arith

matches_frame-inv : (x : List ℕ) → leb 9 (length x) && matches_frame x ≡ true → AcceptedText x
matches_frame-inv (x ∷ a ∷ b ∷ c ∷ s) h =
    let (e, p) = colon_test x a b c s (and_right _ _ h) in
    subst (λ t. AcceptedText (t ∷ a ∷ b ∷ c ∷ s)) (sym e)
      (AcceptedText-of_pairs (a ∷ b ∷ c ∷ s) (leb→le _ _ (and_left _ _ h)) p)
matches_frame-inv (x ∷ a ∷ b ∷ []) h = cc
matches_frame-inv (x ∷ a ∷ []) h = cc
matches_frame-inv (x ∷ []) h = cc
matches_frame-inv [] h = cc

accepted_test :
    (fmt : ℕ → List ℕ) (now : ℕ) (x : List ℕ) (f : ModbusAsciiFrame)
    → new_frame fmt now (of_string x) ≡ some f
    → leb 9 (length x) && matches_frame x ≡ true
unfolding new_frame
accepted_test fmt now x f h = elim (Bool-cases (leb 9 (length x) && matches_frame x)) [
  | inl e ↦ e
  | inr e ↦ ground arith
]

-- What is known of a frame built from a text: the text, and when its check byte is right.
abbrev pub ParsedFrom : List ℕ → ModbusAsciiFrame → ℕ → Type 0
ParsedFrom x f c =
    AreBytes f.buffer
    × (c < 256)
    × (2 ≤ length f.buffer)
    × (x ≡ frame_text f.buffer c)
    × (f.frame ≡ x)
    × ((f.lrc_ok ≡ true) ↔ ((sum f.buffer + c) % 256 ≡ 0))

-- A text that the constructor accepts is the colon, the digits of its two or more bytes and of one
-- check byte, and the line end; and `lrcOk` says that all bytes add up to 0 modulo 256.
pub new_frame-ParsedFrom :
    (fmt : ℕ → List ℕ) (now : ℕ) (x : List ℕ) (f : ModbusAsciiFrame)
    → new_frame fmt now (of_string x) ≡ some f
    → (c : ℕ) × ParsedFrom x f c
unfolding AcceptedText
new_frame-ParsedFrom fmt now x f h =
    let (bs, c, ok, k, l, e) = matches_frame-inv x (accepted_test fmt now x f h) in
    let built = new_frame-frame_text fmt now bs c ok k l in
    let same = some_inj (sym built ∙ (rw e at h)) in
    (
      c,
      subst (λ g. ParsedFrom x g c) same
          (
            ok,
            k,
            l,
            e,
            sym e,
            (
              (λ p. (lrc_check_iff bs c k).0 ((==_iff c _).0 p)),
              (λ p. (==_iff c _).1 ((lrc_check_iff bs c k).1 p)),
            ),
          ),
    )
