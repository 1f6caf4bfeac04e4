-- ===== src/Modbus/Request/Multiple.antt =====
-- createWriteMultipleHoldRegisters of modbus-request.ts: where its values stand, and when it throws.
use rpi_atmega324_modbus_gat.Prelude.{
  ℕ, zero, suc, ◌+◌, ◌-◌, ◌*◌, ◌/◌, ◌%◌, ◌≤◌, ◌<◌, ◌≡◌, refl, ap, ◌∙◌, subst, inl, inr, Bool, false,
  List, [], ◌∷◌, arith, length, get_elem?, get_or, drop, Bool-cases,
}
use rpi_atmega324_modbus_gat.Prelude.Int.{pos, negsuc}
use rpi_atmega324_modbus_gat.Prelude.Num.{Num, undefined, nan, num}
use rpi_atmega324_modbus_gat.Prelude.Result.{ok, throw, throw_if, >>=-eq-ok, throw_if-eq-ok, ok_inj}
use rpi_atmega324_modbus_gat.Modbus.Frame.{ModbusAsciiFrame}
use rpi_atmega324_modbus_gat.Modbus.Frame.Text.{AreBytes}
use rpi_atmega324_modbus_gat.Modbus.Access.{byte_at, word_at, word_of}
use rpi_atmega324_modbus_gat.Modbus.Request.{
  illegal_arguments, new_request, outside, to_bits, byte, request_of_bytes, head_or_undefined,
  word_bytes, create_write_multiple_hold_registers,
}
use rpi_atmega324_modbus_gat.Modbus.Request.Factory.{
  buffer_frame, request_of_bytes_lem, Addressed, num_eq,
}

-- The i-th value as the loop reads it.
abbrev pub value_of : List Num → ℕ → Num
value_of vs i = get_or vs i undefined

drop-get_or : (vs : List Num) (i : ℕ) → value_of (drop 1 vs) i ≡ value_of vs (suc i)
drop-get_or [] i = refl
drop-get_or (v ∷ vs) i = refl

head-value_of : (vs : List Num) → head_or_undefined vs ≡ value_of vs 0
head-value_of [] = refl
head-value_of (v ∷ vs) = refl

to_bits-lt : (v : Num) → outside (pos 0) (pos 0xffff) v ≡ false → to_bits v < 65535
to_bits-lt undefined h = omega arith
to_bits-lt nan h = omega arith
to_bits-lt (num (pos n)) h = ground arith
to_bits-lt (num (negsuc n)) h = omega arith

-- What the loop of a multiple write gives: two bytes for each of its values.
abbrev pub HoldsWords : ℕ → List Num → List ℕ → Type 0
HoldsWords q vs ws =
    (length ws ≡ 2 * q)
    × AreBytes ws
    × ((i : ℕ)
        → i < q
        → word_of (get_elem? ws (2 * i)) (get_elem? ws (2 * i + 1))
          ≡ num (pos (to_bits (value_of vs i))))

pair_at :
    (hi lo : ℕ) (ws : List ℕ) (i : ℕ)
    → word_of (get_elem? (hi ∷ lo ∷ ws) (2 * suc i)) (get_elem? (hi ∷ lo ∷ ws) (2 * suc i + 1))
      ≡ word_of (get_elem? ws (2 * i)) (get_elem? ws (2 * i + 1))
pair_at hi lo ws i =
    let e : 2 * suc i ≡ suc (suc (2 * i)) = omega arith in
    let d : 2 * suc i + 1 ≡ suc (suc (2 * i + 1)) = omega arith in
    λ k. word_of (get_elem? (hi ∷ lo ∷ ws) (e k)) (get_elem? (hi ∷ lo ∷ ws) (d k))

head_word :
    (v : Num) (ws : List ℕ)
    → outside (pos 0) (pos 0xffff) v ≡ false
    → word_of
        (get_elem? (byte (to_bits v / 256) ∷ to_bits v % 256 ∷ ws) (2 * 0))
        (get_elem? (byte (to_bits v / 256) ∷ to_bits v % 256 ∷ ws) (2 * 0 + 1))
      ≡ num (pos (to_bits v))
head_word v ws h = num_eq (omega (arith, to_bits-lt v h))

HoldsWords-cons :
    (q : ℕ) (vs : List Num) (ws : List ℕ)
    → outside (pos 0) (pos 0xffff) (head_or_undefined vs) ≡ false
    → HoldsWords q (drop 1 vs) ws
    → HoldsWords
        (suc q)
        vs
        (byte (to_bits (head_or_undefined vs) / 256) ∷ to_bits (head_or_undefined vs) % 256 ∷ ws)
HoldsWords-cons q vs ws h (l, b, g) = (
  omega arith,
  (omega arith, (omega arith, b)),
  elim [
    | zero ↦ λ k.
        head_word (head_or_undefined vs) ws h ∙ ap (λ v. num (pos (to_bits v))) (head-value_of vs)
    | suc i ↦ λ k.
        pair_at _ _ ws i ∙ (g i (omega arith) ∙ ap (λ v. num (pos (to_bits v))) (drop-get_or vs i))
  ],
)

word_bytes-HoldsWords :
    (q : ℕ) (vs : List Num) (ws : List ℕ) → word_bytes q vs ≡ ok ws → HoldsWords q vs ws
unfolding word_bytes
word_bytes-HoldsWords zero vs ws h =
    subst (HoldsWords 0 vs) (ok_inj h) (omega arith, tt, λ i k. absurd (omega arith))
word_bytes-HoldsWords (suc q) vs ws h =
    let (u, g, h') =
      >>=-eq-ok (throw_if (outside (pos 0) (pos 0xffff) (head_or_undefined vs)) illegal_arguments) _
        h in
    let (rest, e, same) = >>=-eq-ok (word_bytes q (drop 1 vs)) _ h' in
    subst (HoldsWords (suc q) vs) (ok_inj same) (
      HoldsWords-cons q vs rest (throw_if-eq-ok _ _ g) (word_bytes-HoldsWords q (drop 1 vs) rest e))

-- All of the first `q` values can be written: from 0 up and below 0xffff, or not a number.
abbrev pub Writable : ℕ → List Num → Type 0
Writable zero vs = Unit
Writable (suc q) vs =
    (outside (pos 0) (pos 0xffff) (head_or_undefined vs) ≡ false) × Writable q (drop 1 vs)

word_bytes_total :
    (q : ℕ) (vs : List Num) → Writable q vs → (ws : List ℕ) × (word_bytes q vs ≡ ok ws)
unfolding word_bytes
word_bytes_total zero vs h = ([], refl)
word_bytes_total (suc q) vs (h, hs) =
    let (rest, e) = word_bytes_total q (drop 1 vs) hs in
    (
      byte (to_bits (head_or_undefined vs) / 256) ∷ to_bits (head_or_undefined vs) % 256 ∷ rest,
      rw (h, e),
    )

word_bytes_refused :
    (q : ℕ) (vs : List Num) → ¬ Writable q vs → word_bytes q vs ≡ throw illegal_arguments
unfolding word_bytes
word_bytes_refused zero vs h = absurd (h tt)
word_bytes_refused (suc q) vs h =
    elim (Bool-cases (outside (pos 0) (pos 0xffff) (head_or_undefined vs))) [
      | inl e ↦ rw e
      | inr e ↦ rw (e, word_bytes_refused q (drop 1 vs) (λ w. h (e, w)))
    ]

-- The words start behind the seven bytes of the header.
word_behind :
    (b0 b1 b2 b3 b4 b5 b6 : ℕ) (ws : List ℕ) (i : ℕ)
    → let b : List ℕ = b0 ∷ b1 ∷ b2 ∷ b3 ∷ b4 ∷ b5 ∷ b6 ∷ ws in
      word_of (get_elem? b (7 + 2 * i)) (get_elem? b (7 + 2 * i + 1))
      ≡ word_of (get_elem? ws (2 * i)) (get_elem? ws (2 * i + 1))
word_behind b0 b1 b2 b3 b4 b5 b6 ws i =
    let b : List ℕ = b0 ∷ b1 ∷ b2 ∷ b3 ∷ b4 ∷ b5 ∷ b6 ∷ ws in
    let e : 7 + 2 * i ≡ suc (suc (suc (suc (suc (suc (suc (2 * i))))))) = omega arith in
    let d : 7 + 2 * i + 1 ≡ suc (suc (suc (suc (suc (suc (suc (2 * i + 1))))))) = omega arith in
    λ k. word_of (get_elem? b (e k)) (get_elem? b (d k))

-- For a device below 256, an address from 1 to 65535 (counted from 1) and fewer than 128 registers, so that
-- their bytes can be counted in one byte: a write of `q` registers whose values are all from 0 up and below
-- 0xffff (or no numbers, which count as 0) is built. Its frame has seven bytes with the device, the function
-- 0x10, the address, the number of registers and the number of bytes, then a word for each value.
pub create_write_multiple_hold_registers-layout :
    (fmt : ℕ → List ℕ) (now d a q : ℕ) (vs : List Num) (log : Bool)
    → d < 256
    → 1 ≤ a
    → a < 65536
    → q < 128
    → Writable q vs
    → (x : ModbusAsciiFrame) × (create_write_multiple_hold_registers fmt now
          (num (pos d))
          (num (pos a))
          q
          vs
          log
        ≡ ok (new_request x log))
      × Addressed x d 16 a
      × (length x.buffer ≡ 7 + 2 * q)
      × (word_at x 4 ≡ num (pos q))
      × (byte_at x 6 ≡ num (pos (2 * q)))
      × ((i : ℕ) → i < q → word_at x (7 + 2 * i) ≡ num (pos (to_bits (value_of vs i))))
unfolding create_write_multiple_hold_registers byte_at word_at
create_write_multiple_hold_registers-layout fmt now d a q vs log h1 h2 h3 h4 h5 =
    let (ws, e) = word_bytes_total q vs h5 in
    let (l, bytes, g) = word_bytes-HoldsWords q vs ws e in
    let b : List ℕ =
      d % 256
      ∷ 0x10
      ∷ (a - 1) / 256 % 256
      ∷ (a - 1) % 256
      ∷ q / 256 % 256
      ∷ q % 256
      ∷ q * 2 % 256
      ∷ ws in
    let guards : create_write_multiple_hold_registers fmt now (num (pos d)) (num (pos a)) q vs log
        ≡ request_of_bytes fmt now b log =
      ground (arith, e) in
    (
      buffer_frame fmt now b,
      guards ∙ request_of_bytes_lem fmt now b log (omega arith),
      (
        (
          omega arith,
          (
            omega arith,
            (omega arith, (omega arith, (omega arith, (omega arith, (omega arith, bytes))))),
          ),
        ),
        num_eq (omega arith),
        refl,
        num_eq (omega arith),
      ),
      omega (arith, l),
      num_eq (omega arith),
      num_eq (omega arith),
      λ i k. word_behind _ _ _ _ _ _ _ ws i ∙ g i k,
    )

-- It is refused as soon as one of the first `q` values is a number below 0 or at least 0xffff.
pub create_write_multiple_hold_registers-refused :
    (fmt : ℕ → List ℕ) (now : ℕ) (dev addr : Num) (q : ℕ) (vs : List Num) (log : Bool)
    → ¬ Writable q vs
    → create_write_multiple_hold_registers fmt now dev addr q vs log ≡ throw illegal_arguments
unfolding create_write_multiple_hold_registers
create_write_multiple_hold_registers-refused fmt now dev addr q vs log h =
    rw (word_bytes_refused q vs h) (ground arith)
