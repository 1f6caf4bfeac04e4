-- ===== src/EgoHeater/Serial/Exchange.antt =====
-- The exchange of a request and its response in the driver of the egoHeater server, and how frames that
-- stay behind block it.
use rpi_atmega324_modbus_gat.Prelude.{
  ℕ, ◌≡◌, refl, sym, ap, ◌∙◌, subst, true, false, Option, none, some, List, [], ◌∷◌, ◌++◌, arith,
  ◌==◌,
}
use mathlib.Core.List.{append_assoc, append-nil}
use rpi_atmega324_modbus_gat.Modbus.Frame.{ModbusAsciiFrame, of_string}
use rpi_atmega324_modbus_gat.Modbus.Frame.Plain.{
  IsPlain, ArePlain, inner, inner-ArePlain, frame_text-inner,
}
use rpi_atmega324_modbus_gat.Modbus.Serial.{FrameText, null, text}
use rpi_atmega324_modbus_gat.EgoHeater.Frame.{new_frame, of_string-IsFrameOf}
use rpi_atmega324_modbus_gat.EgoHeater.Serial.{
  Serial, resolves, end_frame, handle_byte, handle_bytes, handle_on_serial_data, is_set,
}

module _ (fmt : ℕ → List ℕ) (now : ℕ) where
  handle_bytes-append :
      (xs ys : List ℕ) (s : Serial)
      → handle_bytes fmt now (xs ++ ys) s ≡ handle_bytes fmt now ys (handle_bytes fmt now xs s)
  unfolding handle_bytes
  handle_bytes-append [] ys s = refl
  handle_bytes-append (x ∷ xs) ys s = handle_bytes-append xs ys (handle_byte fmt now x s)

  plain_byte :
      (c : ℕ) (x : List ℕ) (s : Serial)
      → IsPlain c
      → handle_byte fmt now c (record s { frame = text x })
        ≡ record s { frame = text (x ++ c ∷ []) }
  unfolding handle_byte
  plain_byte c x s h =
      let p : (c == b':') ≡ false = ground arith in
      let q : (c == 10) ≡ false = ground arith in rw (p, q)

  collect :
      (cs x : List ℕ) (s : Serial)
      → ArePlain cs
      → handle_bytes fmt now cs (record s { frame = text x }) ≡ record s { frame = text (x ++ cs) }
  unfolding handle_bytes
  collect [] x s h = ap (λ (t : List ℕ). record s { frame = text t }) (sym (append-nil x))
  collect (c ∷ cs) x s (h, hs) =
      ap (handle_bytes fmt now cs) (plain_byte c x s h)
      ∙ collect cs (x ++ c ∷ []) s hs
      ∙ ap (λ (t : List ℕ). record s { frame = text t }) (append_assoc x (c ∷ []) cs)

  end_frame_fresh :
      (o : Option ModbusAsciiFrame) (s : Serial) (x : FrameText)
      → end_frame o (record s { frame = x }) ≡ end_frame o s
  unfolding end_frame
  end_frame_fresh none s x = refl
  end_frame_fresh (some f) s x = refl

  -- A colon, plain characters and a line feed.
  handle_line :
      (cs : List ℕ) (s : Serial)
      → ArePlain cs
      → handle_bytes fmt now (b':' ∷ (cs ++ 10 ∷ [])) s
        ≡ end_frame (new_frame fmt now (of_string (b':' ∷ (cs ++ 10 ∷ [])))) s
  unfolding handle_bytes handle_byte
  handle_line cs s h =
      handle_bytes-append cs (10 ∷ []) (record s { frame = text (b':' ∷ []) })
      ∙ ap (handle_byte fmt now 10) (collect cs (b':' ∷ []) s h)
      ∙ end_frame_fresh (new_frame fmt now (of_string (b':' ∷ (cs ++ 10 ∷ [])))) s
          (text (b':' ∷ cs))

  handle_frame :
      (x : List ℕ) (f : ModbusAsciiFrame) (s : Serial)
      → new_frame fmt now (of_string x) ≡ some f
      → handle_bytes fmt now x s ≡ end_frame (some f) s
  handle_frame x f s h =
      let (c, (bytes, k, written, good, check)) = of_string-IsFrameOf fmt now x f h in
      let line : x ≡ b':' ∷ (inner f.buffer c ++ 10 ∷ []) = written ∙ frame_text-inner f.buffer c in
      subst (λ t. handle_bytes fmt now t s ≡ end_frame (new_frame fmt now (of_string t)) s)
        (sym line) (handle_line (inner f.buffer c) s (inner-ArePlain f.buffer c bytes k))
      ∙ ap (λ (o : Option ModbusAsciiFrame). end_frame o s) h

  first_frame :
      (e : ModbusAsciiFrame) (s : Serial)
      → s.received_frames ≡ []
      → end_frame (some e) s ≡ record s { frame = null; received_frames = e ∷ [] }
  unfolding end_frame
  first_frame e s r = rw r refl

  second_frame :
      (p : ℕ) (e f : ModbusAsciiFrame) (s : Serial)
      → s.write_promise ≡ some p
      → s.received_frames ≡ e ∷ []
      → end_frame (some f) s ≡ record s {
        write_promise = none;
        frame = null;
        received_frames = [];
        effects = resolves p f ∷ s.effects;
      }
  unfolding end_frame
  second_frame p e f s w r = rw (r, w) refl

  -- While a request is pending and no frame has been received, the bytes of its echo and of the response
  -- resolve its promise with the response, whatever the check bytes are, and leave the driver ready.
  pub two_frames_resolve :
      (p : ℕ) (x y : List ℕ) (e f : ModbusAsciiFrame) (s : Serial)
      → s.write_promise ≡ some p
      → s.received_frames ≡ []
      → new_frame fmt now (of_string x) ≡ some e
      → new_frame fmt now (of_string y) ≡ some f
      → handle_on_serial_data fmt now (x ++ y) s ≡ record s {
        write_promise = none;
        frame = null;
        received_frames = [];
        effects = resolves p f ∷ s.effects;
      }
  unfolding handle_on_serial_data
  two_frames_resolve p x y e f s w r h k =
      let pending : is_set s.write_promise ≡ true = ap is_set w in
      rw pending (
        handle_bytes-append x y s
        ∙ ap (handle_bytes fmt now y) (handle_frame x e s h ∙ first_frame e s r)
        ∙ handle_frame y f (record s { frame = null; received_frames = e ∷ [] }) k
        ∙ second_frame p e f (record s { frame = null; received_frames = e ∷ [] }) w refl)
