-- ===== src/Modbus/Serial/Stream.antt =====
-- The bytes that arrive at the serial port (modbus-serial.ts, handleOnSerialData): chunks, the bytes of
-- one frame, and a text that is no frame.
use rpi_atmega324_modbus_gat.Prelude.{
  ℕ, ◌<◌, ◌≡◌, refl, sym, ap, ◌∙◌, subst, false, Option, none, some, List, [], ◌∷◌, ◌++◌, arith,
  ◌==◌,
}
use mathlib.Core.List.{append_assoc, append-nil}
use rpi_atmega324_modbus_gat.Prelude.Result.{Result, ok, throw}
use rpi_atmega324_modbus_gat.Modbus.Frame.{ModbusAsciiFrame, of_string, new_frame}
use rpi_atmega324_modbus_gat.Modbus.Frame.Text.{AreBytes, frame_text}
use rpi_atmega324_modbus_gat.Modbus.Frame.Laws.{new_frame-ParsedFrom}
use rpi_atmega324_modbus_gat.Modbus.Frame.Plain.{
  IsPlain, ArePlain, inner, inner-ArePlain, frame_text-inner,
}
use rpi_atmega324_modbus_gat.Modbus.Serial.{
  Fault, type_error, FrameText, null, text, skip, Serial, M, continue,
}
use rpi_atmega324_modbus_gat.Modbus.Serial.Bytes.{
  end_frame, handle_byte, handle_bytes, handle_on_serial_data, unless_empty, codes_of,
}

continue-append :
    (r : Result Fault (Unit {0}) × Serial) (m m' k : M (Unit {0}))
    → ((t : Serial) → m t ≡ continue (λ _. k) (m' t))
    → continue (λ _. m) r ≡ continue (λ _. k) (continue (λ _. m') r)
continue-append (ok a, t) m m' k h = h t
continue-append (throw e, t) m m' k h = refl

module _ (fmt : ℕ → List ℕ) (now : ℕ) where
  -- The bytes of two chunks that follow one another.
  pub handle_bytes-append :
      (xs ys : List ℕ) (s : Serial)
      → handle_bytes fmt now (xs ++ ys) s
        ≡ continue (λ _. handle_bytes fmt now ys) (handle_bytes fmt now xs s)
  unfolding handle_bytes
  handle_bytes-append [] ys s = refl
  handle_bytes-append (x ∷ xs) ys s =
      continue-append (handle_byte fmt now x s) (handle_bytes fmt now (xs ++ ys))
        (handle_bytes fmt now xs) (handle_bytes fmt now ys) (handle_bytes-append xs ys)

  pub on_serial_data :
      (xs : List ℕ) (s : Serial) {i : ℕ} {p : List ℕ}
      → s.pending ≡ i ∷ p
      → handle_on_serial_data fmt now xs s ≡ handle_bytes fmt now xs s
  unfolding handle_on_serial_data
  on_serial_data xs s p = λ k. unless_empty fmt now (p k) (handle_bytes fmt now xs) s

  plain_byte :
      (c : ℕ) (x : List ℕ) (s : Serial)
      → IsPlain c
      → s.frame ≡ text x
      → handle_byte fmt now c s ≡ (ok tt, record s { frame = text (x ++ c ∷ []) })
  unfolding handle_byte
  plain_byte c x s h e =
      let p : (c == b':') ≡ false = ground arith in
      let q : (c == 10) ≡ false = ground arith in rw (p, q, e)

  -- Characters inside a frame are collected.
  feed :
      (cs x : List ℕ) (s : Serial)
      → ArePlain cs
      → s.frame ≡ text x
      → handle_bytes fmt now cs s ≡ (ok tt, record s { frame = text (x ++ cs) })
  unfolding handle_bytes
  feed [] x s h e = λ k. (ok tt, record s { frame = (e ∙ ap text (sym (append-nil x))) k })
  feed (c ∷ cs) x s (h, hs) e =
      ap (continue (λ _. handle_bytes fmt now cs)) (plain_byte c x s h e)
      ∙ feed cs (x ++ c ∷ []) (record s { frame = text (x ++ c ∷ []) }) hs refl
      ∙ (λ k. (ok tt, record s { frame = text (append_assoc x (c ∷ []) cs k) }))

  -- The last byte of a frame: what has been collected is handed on.
  last_byte :
      (x : List ℕ) (s : Serial)
      → s.frame ≡ text x
      → handle_byte fmt now 10 s ≡ end_frame now (new_frame fmt now (of_string (x ++ 10 ∷ []))) s
  unfolding handle_byte
  last_byte x s e = λ k. end_frame now (new_frame fmt now (of_string (codes_of (e k) ++ 10 ∷ []))) s

  -- The end of a frame does not look at what was collected before.
  end_frame_fresh :
      (o : Option ModbusAsciiFrame) (s : Serial) (x : FrameText)
      → end_frame now o (record s { frame = x }) ≡ end_frame now o s
  unfolding end_frame
  end_frame_fresh none s x = refl
  end_frame_fresh (some f) s x = refl

  continue-skip : (r : Result Fault (Unit {0}) × Serial) → continue (λ _. skip) r ≡ r
  continue-skip (ok tt, t) = refl
  continue-skip (throw e, t) = refl

  colon_byte :
      (xs : List ℕ) (s : Serial)
      → handle_bytes fmt now (b':' ∷ xs) s
        ≡ handle_bytes fmt now xs (record s { frame = text (b':' ∷ []) })
  unfolding handle_bytes
  colon_byte xs s = refl

  one_byte : (b : ℕ) (s : Serial) → handle_bytes fmt now (b ∷ []) s ≡ handle_byte fmt now b s
  unfolding handle_bytes
  one_byte b s = continue-skip (handle_byte fmt now b s)

  handle_inner :
      (cs : List ℕ) (s : Serial)
      → ArePlain cs
      → handle_bytes fmt now (b':' ∷ (cs ++ 10 ∷ [])) s
        ≡ end_frame now (new_frame fmt now (of_string (b':' ∷ (cs ++ 10 ∷ [])))) s
  handle_inner cs s h =
      let s0 = record s { frame = text (b':' ∷ []) } in
      let s1 = record s { frame = text (b':' ∷ cs) } in
      colon_byte (cs ++ 10 ∷ []) s
      ∙ handle_bytes-append cs (10 ∷ []) s0
      ∙ ap (continue (λ _. handle_bytes fmt now (10 ∷ []))) (feed cs (b':' ∷ []) s0 h refl)
      ∙ one_byte 10 s1
      ∙ last_byte (b':' ∷ cs) s1 refl
      ∙ end_frame_fresh (new_frame fmt now (of_string (b':' ∷ (cs ++ 10 ∷ [])))) s
          (text (b':' ∷ cs))

  handle_frame_text :
      (bs : List ℕ) (c : ℕ) (s : Serial)
      → AreBytes bs
      → c < 256
      → handle_bytes fmt now (frame_text bs c) s
        ≡ end_frame now (new_frame fmt now (of_string (frame_text bs c))) s
  handle_frame_text bs c s h k =
      subst (λ x. handle_bytes fmt now x s ≡ end_frame now (new_frame fmt now (of_string x)) s)
        (sym (frame_text-inner bs c)) (handle_inner (inner bs c) s (inner-ArePlain bs c h k))

  -- The bytes of a text that is a frame end in one call for that frame, whatever came before them.
  pub handle_frame :
      (x : List ℕ) (f : ModbusAsciiFrame) (s : Serial)
      → new_frame fmt now (of_string x) ≡ some f
      → handle_bytes fmt now x s ≡ end_frame now (some f) s
  handle_frame x f s h =
      let (c, parts) = new_frame-ParsedFrom fmt now x f h in
      subst (λ y. handle_bytes fmt now y s ≡ end_frame now (new_frame fmt now (of_string y)) s)
        (sym parts.3) (handle_frame_text f.buffer c s parts.0 parts.1)
      ∙ ap (λ o. end_frame now o s) h

  rejected_end :
      (o : Option ModbusAsciiFrame) (s : Serial)
      → o ≡ none
      → end_frame now o s ≡ (throw type_error, record s { frame = null })
  unfolding end_frame
  rejected_end o s e = λ k. end_frame now (e k) s

  -- What a line that is no frame does to a driver with a pending request.
  pub broken_line :
      (cs more : List ℕ) (s : Serial) {i : ℕ} {p : List ℕ}
      → s.pending ≡ i ∷ p
      → ArePlain cs
      → new_frame fmt now (of_string (b':' ∷ (cs ++ 10 ∷ []))) ≡ none
      → handle_on_serial_data fmt now ((b':' ∷ (cs ++ 10 ∷ [])) ++ more) s
        ≡ (throw type_error, record s { frame = null })
  broken_line cs more s p plain refused =
      on_serial_data ((b':' ∷ (cs ++ 10 ∷ [])) ++ more) s p
      ∙ handle_bytes-append (b':' ∷ (cs ++ 10 ∷ [])) more s
      ∙ ap (continue (λ _. handle_bytes fmt now more)) (
          handle_inner cs s plain
          ∙ rejected_end (new_frame fmt now (of_string (b':' ∷ (cs ++ 10 ∷ [])))) s refused)
