-- ===== src/Modbus/Serial/Exchange.antt =====
-- An exchange over the serial line (modbus-serial.ts): the echo of the request at the head of the queue,
-- and its response.
use rpi_atmega324_modbus_gat.Prelude.{
  ℕ, ◌≡◌, refl, sym, ap, ◌∙◌, subst, ◌≢◌, true, none, some, List, [], ◌∷◌, ◌++◌, arith,
  if◌then◌else◌, length, ==_iff,
}
use rpi_atmega324_modbus_gat.Prelude.Result.{Result, ok, throw}
use rpi_atmega324_modbus_gat.Modbus.Frame.{ModbusAsciiFrame, of_string, new_frame}
use rpi_atmega324_modbus_gat.Modbus.Frame.Plain.{ArePlain}
use rpi_atmega324_modbus_gat.Modbus.Request.{
  ModbusRequest, same_bytes, set_request_received, set_response, set_error,
}
use rpi_atmega324_modbus_gat.Modbus.Serial.{
  Fault, type_error, null, PendingRequest, resolves, rejects, Serial, continue, update,
}
use rpi_atmega324_modbus_gat.Modbus.Serial.Bytes.{
  for_head, lrc_failure, receive_frame, end_frame, handle_bytes, handle_on_serial_data,
}
use rpi_atmega324_modbus_gat.Modbus.Serial.Timeouts.{announce}
use rpi_atmega324_modbus_gat.Modbus.Serial.Stream.{
  on_serial_data, handle_bytes-append, handle_frame, broken_line,
}

-- A request for which nothing has come yet.
abbrev pub IsWaiting : ModbusRequest → Type 0
IsWaiting r =
    (r.request_received ≡ none)
    × (r.request_received_at ≡ none)
    × (r.response ≡ none)
    × (r.error ≡ none)

abbrev pub with_echo : ℕ → ModbusAsciiFrame → PendingRequest → PendingRequest
with_echo now f r = record r {
  requ = record (r.requ) { request_received = some f; request_received_at = some now };
}

-- The state after the echo.
abbrev pub echoed : ℕ → ℕ → ModbusAsciiFrame → Serial → Serial
echoed now i f s = record s {
  frame = null;
  memory = update s.memory i (with_echo now f (s.memory i));
}

same_bytes_refl : (xs : List ℕ) → same_bytes xs xs ≡ true
unfolding same_bytes
same_bytes_refl [] = refl
same_bytes_refl (x ∷ xs) = ground (arith, same_bytes_refl xs)

set_request_received-echo :
    (now : ℕ) (f : ModbusAsciiFrame) (r : ModbusRequest)
    → r.request_received ≡ none
    → f.buffer ≡ r.request.buffer
    → set_request_received now f r
      ≡ ok (record r { request_received = some f; request_received_at = some now })
unfolding set_request_received
set_request_received-echo now f r e b =
    ground
      (arith, same_bytes_refl r.request.buffer, ==_iff (length r.request.buffer) (length f.buffer))

receive_echo :
    (now i : ℕ) (f : ModbusAsciiFrame) (s : Serial)
    → IsWaiting (s.memory i).requ
    → f.lrc_ok ≡ true
    → f.buffer ≡ (s.memory i).requ.request.buffer
    → receive_frame now i f s
      ≡ (ok tt, record s { memory = update s.memory i (with_echo now f (s.memory i)) })
unfolding receive_frame
receive_echo now i f s w l b =
    ground (arith, set_request_received-echo now f (s.memory i).requ w.0 b)

-- What the response leaves of the request.
abbrev pub with_response : ℕ → ℕ → ModbusAsciiFrame → PendingRequest → PendingRequest
with_response now i f r = record {
  requ = record (r.requ) {
    response = some f;
    response_at = some now;
    error = if f.lrc_ok then r.requ.error else some (lrc_failure i);
  };
  timer = none;
  timer_modbus = none;
}

abbrev pub Settled :
    (now i : ℕ) → ModbusAsciiFrame → List ℕ → Serial → Result Fault (Unit {0}) × Serial → Type 0
Settled now i f rest s (r, t) =
    (r ≡ ok tt)
    × (t.pending ≡ rest)
    × (t.frame ≡ s.frame)
    × (t.memory i ≡ with_response now i f (s.memory i))
    × ((j : ℕ) → j ≢ i → t.memory j ≡ s.memory j)
    × (t.effects
        ≡ announce rest ((if f.lrc_ok then resolves i else rejects i (lrc_failure i)) ∷ s.effects))

receive_response :
    (now i : ℕ) (f : ModbusAsciiFrame) (rest : List ℕ) (s : Serial) {e : ModbusAsciiFrame} {at : ℕ}
    → s.pending ≡ i ∷ rest
    → (s.memory i).requ.request_received ≡ some e
    → (s.memory i).requ.request_received_at ≡ some at
    → (s.memory i).requ.response ≡ none
    → (s.memory i).requ.error ≡ none
    → Settled now i f rest s (receive_frame now i f s)
unfolding receive_frame set_response set_error
receive_response now i f [] s p g a n x =
    (ground arith, ground arith, ground arith, ground arith, λ j k. ground arith, ground arith)
receive_response now i f (h ∷ rest) s p g a n x =
    (ground arith, ground arith, ground arith, ground arith, λ j k. ground arith, ground arith)

end_frame-head :
    (now i : ℕ) (rest : List ℕ) (f : ModbusAsciiFrame) (s : Serial)
    → s.pending ≡ i ∷ rest
    → end_frame now (some f) s ≡ receive_frame now i f (record s { frame = null })
unfolding end_frame
end_frame-head now i rest f s p =
    λ k. for_head (λ j. receive_frame now j f) (p k) (record s { frame = null })

update_self {ℓ} : {A : Type ℓ} (m : ℕ → A) (i : ℕ) (v : A) → update m i v i ≡ v
update_self m i v = ground (arith, ==_iff i i)

module _ (fmt : ℕ → List ℕ) (now : ℕ) where
  after_echo :
      (i : ℕ) (rest x : List ℕ) (f : ModbusAsciiFrame) (s : Serial)
      → s.pending ≡ i ∷ rest
      → IsWaiting (s.memory i).requ
      → new_frame fmt now (of_string x) ≡ some f
      → f.lrc_ok ≡ true
      → f.buffer ≡ (s.memory i).requ.request.buffer
      → handle_bytes fmt now x s ≡ (ok tt, echoed now i f s)
  after_echo i rest x f s p w h l b =
      handle_frame fmt now x f s h
      ∙ end_frame-head now i rest f s p
      ∙ receive_echo now i f (record s { frame = null }) w l b

  after_response :
      (i : ℕ) (rest x : List ℕ) (e f : ModbusAsciiFrame) (s : Serial)
      → s.pending ≡ i ∷ rest
      → IsWaiting (s.memory i).requ
      → new_frame fmt now (of_string x) ≡ some f
      → Settled now i f rest (echoed now i e s) (handle_bytes fmt now x (echoed now i e s))
  after_response i rest x e f s p w h =
      let t = echoed now i e s in
      let at_i : t.memory i ≡ with_echo now e (s.memory i) =
        update_self s.memory i (with_echo now e (s.memory i)) in
      subst (Settled now i f rest t)
        (sym (handle_frame fmt now x f t h ∙ end_frame-head now i rest f t p))
        (receive_response now i f rest t p
          (ap (λ (r : PendingRequest). r.requ.request_received) at_i)
          (ap (λ (r : PendingRequest). r.requ.request_received_at) at_i)
          (ap (λ (r : PendingRequest). r.requ.response) at_i ∙ w.2)
          (ap (λ (r : PendingRequest). r.requ.error) at_i ∙ w.3))

  -- While the request `i` at the head of the queue waits, the bytes of its echo and of any frame after
  -- it settle it: it leaves the queue with both frames recorded and its timers off, its promise is
  -- resolved if the check byte of the second frame is right and rejected with an LRC error
  -- otherwise, no other request is touched, and the next one, if there is one, is written.
  pub exchange :
      (i : ℕ) (rest x y : List ℕ) (e f : ModbusAsciiFrame) (s : Serial)
      → s.pending ≡ i ∷ rest
      → IsWaiting (s.memory i).requ
      → new_frame fmt now (of_string x) ≡ some e
      → e.lrc_ok ≡ true
      → e.buffer ≡ (s.memory i).requ.request.buffer
      → new_frame fmt now (of_string y) ≡ some f
      → Settled now i f rest (echoed now i e s) (handle_on_serial_data fmt now (x ++ y) s)
  exchange i rest x y e f s p w h l b k =
      subst (Settled now i f rest (echoed now i e s))
        (sym (
          on_serial_data fmt now (x ++ y) s p
          ∙ handle_bytes-append fmt now x y s
          ∙ ap (continue (λ _. handle_bytes fmt now y)) (after_echo i rest x e s p w h l b)))
        (after_response i rest y e f s p w k)

  -- A line of plain characters, between the colon and the line feed, that is no frame arrives while a request
  -- is pending: the handler throws a TypeError, the rest of that chunk is lost, and nothing is changed but the
  -- text that was collected, so the request still waits at the head of the queue. It is not lost: the bytes of
  -- an intact echo of it and of a response that come in a later chunk settle it as if nothing had happened.
  pub broken_frame :
      (i : ℕ) (rest cs more x y : List ℕ) (e f : ModbusAsciiFrame) (s : Serial)
      → ArePlain cs
      → new_frame fmt now (of_string (b':' ∷ (cs ++ 10 ∷ []))) ≡ none
      → s.pending ≡ i ∷ rest
      → IsWaiting (s.memory i).requ
      → new_frame fmt now (of_string x) ≡ some e
      → e.lrc_ok ≡ true
      → e.buffer ≡ (s.memory i).requ.request.buffer
      → new_frame fmt now (of_string y) ≡ some f
      → let (r, t) = handle_on_serial_data fmt now ((b':' ∷ (cs ++ 10 ∷ [])) ++ more) s in
        (r ≡ throw type_error)
        × (t ≡ record s { frame = null })
        × Settled now i f rest (echoed now i e s) (handle_on_serial_data fmt now (x ++ y) t)
  broken_frame i rest cs more x y e f s plain refused p w h l b k =
      let t : Serial = record s { frame = null } in
      let thrown = broken_line fmt now cs more s p plain refused in
      (
        ap (λ r. r.0) thrown,
        ap (λ r. r.1) thrown,
        subst
            (λ u.
              Settled now i f rest (echoed now i e s) (handle_on_serial_data fmt now (x ++ y) u))
            (sym (ap (λ r. r.1) thrown)) (exchange i rest x y e f t p w h l b k),
      )
