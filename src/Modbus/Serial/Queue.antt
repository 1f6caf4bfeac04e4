-- ===== src/Modbus/Serial/Queue.antt =====
-- The queue of modbus-serial.ts under every event: requests are served in the order in which they were
-- sent.
use rpi_atmega324_modbus_gat.Prelude.{
  ℕ, suc, ◌+◌, ◌≤◌, inl, inr, Bool, true, false, not, ◌||◌, Option, none, some, List, [], ◌∷◌, ◌++◌,
  arith, ◌==◌, if◌then◌else◌, length, drop,
}
use rpi_atmega324_modbus_gat.Prelude.Result.{Result, ok, throw, Result-cases}
use rpi_atmega324_modbus_gat.Modbus.Frame.{ModbusAsciiFrame, new_frame, of_string}
use rpi_atmega324_modbus_gat.Modbus.Request.{
  ModbusRequest, ModbusRequestError, set_error, set_sent_at, RequestFault, serial_interface_error,
  of_serial_port, no_cause, is_set, set_response, set_request_received,
}
use rpi_atmega324_modbus_gat.Modbus.Serial.{
  Fault, null, Serial, M, continue, update, handle_error, handle_timeout, write_done, send,
  open_port, open_done, Effect, rejects, resolves, timeout_error, emit, clear_timers, assign,
  write_first, ◌>>◌, attempt, skip, default_timeout, port_not_open, invalid_timeout, write_head,
  with_request,
}
use rpi_atmega324_modbus_gat.Modbus.Serial.Bytes.{
  finish, receive_frame, lrc_failure, for_head, unless_empty, codes_of, end_frame, handle_byte,
  handle_bytes, handle_on_serial_data,
}

-- Strictly rising, above `lo` and below `hi`.
abbrev pub Rises : ℕ → ℕ → List ℕ → Type 0
Rises lo hi [] = lo ≤ hi
Rises lo hi (i ∷ is) = (lo ≤ i) × Rises (suc i) hi is

-- Places are given out in the order of `send`: the queue holds them in that order, each once.
abbrev pub IsOrdered : Serial → Type 0
IsOrdered s = Rises 0 s.next s.pending

Rises-weaken : (lo lo' hi : ℕ) (is : List ℕ) → lo' ≤ lo → Rises lo hi is → Rises lo' hi is
Rises-weaken lo lo' hi [] h r = omega arith
Rises-weaken lo lo' hi (i ∷ is) h r = (omega arith, r.1)

Rises-drop : (hi : ℕ) (is : List ℕ) → Rises 0 hi is → Rises 0 hi (drop 1 is)
Rises-drop hi [] r = r
Rises-drop hi (i ∷ is) r = Rises-weaken (suc i) 0 hi is (omega arith) r.1

Rises-append : (lo hi : ℕ) (is : List ℕ) → Rises lo hi is → Rises lo (suc hi) (is ++ hi ∷ [])
Rises-append lo hi [] r = (r, omega arith)
Rises-append lo hi (i ∷ is) r = (r.0, Rises-append (suc i) hi is r.1)

-- An action that keeps the order, also where it throws.
abbrev KeepsOrder : M (Unit {0}) → Type 0
KeepsOrder m = (s : Serial) → IsOrdered s → IsOrdered (m s).1

continue-IsOrdered :
    (m : M (Unit {0})) (x : Result Fault (Unit {0}) × Serial)
    → KeepsOrder m
    → IsOrdered x.1
    → IsOrdered (continue (λ _. m) x).1
continue-IsOrdered m (ok a, s) k h = k s h
continue-IsOrdered m (throw e, s) k h = h

write_first-KeepsOrder : (is : List ℕ) → KeepsOrder (write_first is)
write_first-KeepsOrder [] s h = h
write_first-KeepsOrder (i ∷ is) s h = h

write_head-KeepsOrder : KeepsOrder write_head
unfolding write_head
write_head-KeepsOrder s h = write_first-KeepsOrder s.pending s h

with_request-KeepsOrder :
    (i : ℕ) (f : ModbusRequest → Result RequestFault ModbusRequest) → KeepsOrder (with_request i f)
with_request-KeepsOrder i f s h = assigned (f (s.memory i).requ)
  where
    assigned : (r : Result RequestFault ModbusRequest) → IsOrdered (assign i s r).1
    assigned (ok r) = h
    assigned (throw e) = h

splice-IsOrdered : (s : Serial) → IsOrdered s → IsOrdered (record s { pending = drop 1 s.pending })
splice-IsOrdered s h = Rises-drop s.next s.pending h

if_result :
    (b : Bool) (x y : Result Fault ℕ × Serial)
    → IsOrdered x.1
    → IsOrdered y.1
    → IsOrdered (if b then x else y).1
if_result true x y h k = h
if_result false x y h k = k

if_state : (b : Bool) (x y : Serial) → IsOrdered x → IsOrdered y → IsOrdered (if b then x else y)
if_state true x y h k = h
if_state false x y h k = k

if_action :
    (b : Bool) (m m' : M (Unit {0}))
    → KeepsOrder m
    → KeepsOrder m'
    → KeepsOrder (if b then m else m')
if_action true m m' h k = h
if_action false m m' h k = k

if_unit :
    (b : Bool) (x y : Result Fault (Unit {0}) × Serial)
    → IsOrdered x.1
    → IsOrdered y.1
    → IsOrdered (if b then x else y).1
if_unit true x y h k = h
if_unit false x y h k = k

open_port-KeepsOrder : KeepsOrder open_port
unfolding open_port
open_port-KeepsOrder s h = if_unit s.open_promise _ _ h h

open_done-KeepsOrder : (failed : Bool) → KeepsOrder (open_done failed)
unfolding open_done
open_done-KeepsOrder failed s h = if_unit s.open_promise _ _ h h

-- The state in which the timers of `i` are off and the latest effect is `e`.
abbrev settled : ℕ → Effect → Serial → Serial
settled i e s = record s {
  memory = update s.memory i (record (s.memory i) { timer = none; timer_modbus = none });
  effects = e ∷ s.effects;
}

handle_error-KeepsOrder : (i : ℕ) (e : ModbusRequestError) → KeepsOrder (handle_error i e)
unfolding handle_error
handle_error-KeepsOrder i e s h =
    let s' = record s { pending = drop 1 s.pending } in
    continue-IsOrdered (do clear_timers i; emit (rejects i e); write_head)
      (with_request i (set_error e) s')
      (λ t k. write_first-KeepsOrder t.pending (settled i (rejects i e) t) k)
      (with_request-KeepsOrder i (set_error e) s' (splice-IsOrdered s h))

handle_timeout-KeepsOrder : (i : ℕ) (modbus : Bool) → KeepsOrder (handle_timeout i modbus)
unfolding handle_timeout
handle_timeout-KeepsOrder i modbus s h =
    handle_error-KeepsOrder i (timeout_error i modbus)
      (record s {
        memory = update s.memory i (record (s.memory i) { timer = none; timer_modbus = none });
      })
      h

write_done-KeepsOrder : (now i : ℕ) (err : Option ℕ) → KeepsOrder (write_done now i err)
unfolding write_done
write_done-KeepsOrder now i (some e) s h =
    handle_error-KeepsOrder i
      (record { message = serial_interface_error; request = of_serial_port e; cause = no_cause }) s
      h
write_done-KeepsOrder now i none s h = elim (Result-cases (set_sent_at now (s.memory i).requ)) [
  | inl (r, e) ↦ rw e h
  | inr (x, e) ↦ rw e h
]

send-IsOrdered :
    (now : ℕ) (r : ModbusRequest) (millis : Option ℕ) (s : Serial)
    → IsOrdered s
    → IsOrdered (send now r millis s).1
unfolding send
send-IsOrdered now r millis s h =
    let queued : Serial = record s {
      memory = update s.memory s.next (record {
        requ = r;
        timer =
            some
              (now + default_timeout ((if r.is_log_set_register then 500 else 2100) + 1000) millis);
        timer_modbus = none;
      });
      next = suc s.next;
      pending = s.pending ++ s.next ∷ [];
    } in
    let k : IsOrdered queued = Rises-append 0 s.next s.pending h in
    if_result (not s.serial_port || s.open_promise) (throw port_not_open, s) _ h
      (if_result _ (throw invalid_timeout, s) _ h
        (if_state (length queued.pending == 1) _ queued
          (write_first-KeepsOrder queued.pending queued k) k))

finish-KeepsOrder : (i : ℕ) (failed : Bool) → KeepsOrder (finish i failed)
unfolding finish
finish-KeepsOrder i true s h =
    let s' = record s {
      memory = update s.memory i (record (s.memory i) { timer = none; timer_modbus = none });
      pending = drop 1 s.pending;
    } in
    elim (Result-cases (set_error (lrc_failure i) (s'.memory i).requ)) [
      | inl (r, e) ↦ rw e (
          write_first-KeepsOrder (drop 1 s.pending)
            (record s' {
              memory = update s'.memory i (record (s'.memory i) { requ = r });
              effects = rejects i (lrc_failure i) ∷ s.effects;
            })
            (splice-IsOrdered s h))
      | inr (x, e) ↦ rw e (splice-IsOrdered s h)
    ]
finish-KeepsOrder i false s h =
    let s' = record s { pending = drop 1 s.pending } in
    write_first-KeepsOrder s'.pending (settled i (resolves i) s') (splice-IsOrdered s h)

receive_frame-KeepsOrder : (now i : ℕ) (f : ModbusAsciiFrame) → KeepsOrder (receive_frame now i f)
unfolding receive_frame
receive_frame-KeepsOrder now i f s h =
    let r = (s.memory i).requ in
    continue-IsOrdered
      (λ t.
        (if not f.lrc_ok || is_set (t.memory i).requ.response
            then finish i (not f.lrc_ok)
            else skip)
          t)
      ((if is_set r.request_received_at
          then with_request i (set_response now f)
          else attempt (with_request i (set_request_received now f)))
        s)
      (λ t k.
        if_action (not f.lrc_ok || is_set (t.memory i).requ.response) (finish i (not f.lrc_ok)) skip
          (finish-KeepsOrder i (not f.lrc_ok)) (λ u l. l) t k)
      (if_action (is_set r.request_received_at) (with_request i (set_response now f))
        (attempt (with_request i (set_request_received now f)))
        (with_request-KeepsOrder i (set_response now f))
        (λ t k. with_request-KeepsOrder i (set_request_received now f) t k) s h)

for_head-KeepsOrder :
    (f : ℕ → M (Unit {0})) (is : List ℕ) → ((i : ℕ) → KeepsOrder (f i)) → KeepsOrder (for_head f is)
for_head-KeepsOrder f [] k s h = h
for_head-KeepsOrder f (i ∷ is) k s h = k i s h

end_frame-KeepsOrder : (now : ℕ) (o : Option ModbusAsciiFrame) → KeepsOrder (end_frame now o)
unfolding end_frame
end_frame-KeepsOrder now none s h = h
end_frame-KeepsOrder now (some f) s h =
    for_head-KeepsOrder (λ i. receive_frame now i f) s.pending
      (λ i. receive_frame-KeepsOrder now i f) (record s { frame = null }) h

module _ (fmt : ℕ → List ℕ) (now : ℕ) where
  handle_byte-KeepsOrder : (b : ℕ) → KeepsOrder (handle_byte fmt now b)
  unfolding handle_byte
  handle_byte-KeepsOrder b s h =
      let x = codes_of s.frame ++ b ∷ [] in
      if_unit (b == b':') _ _ h (
        if_unit (not (b == 10)) _ _ h
          (end_frame-KeepsOrder now (new_frame fmt now (of_string x)) s h))

  handle_bytes-KeepsOrder : (bs : List ℕ) → KeepsOrder (handle_bytes fmt now bs)
  unfolding handle_bytes
  handle_bytes-KeepsOrder [] s h = h
  handle_bytes-KeepsOrder (b ∷ bs) s h =
      continue-IsOrdered (handle_bytes fmt now bs) (handle_byte fmt now b s)
        (handle_bytes-KeepsOrder bs) (handle_byte-KeepsOrder b s h)

  unless_empty-KeepsOrder :
      (is : List ℕ) (m : M (Unit {0})) → KeepsOrder m → KeepsOrder (unless_empty fmt now is m)
  unless_empty-KeepsOrder [] m k s h = h
  unless_empty-KeepsOrder (i ∷ is) m k s h = k s h

  handle_on_serial_data-KeepsOrder : (bs : List ℕ) → KeepsOrder (handle_on_serial_data fmt now bs)
  unfolding handle_on_serial_data
  handle_on_serial_data-KeepsOrder bs s h =
      unless_empty-KeepsOrder s.pending (handle_bytes fmt now bs) (handle_bytes-KeepsOrder bs) s h

  -- The events that reach the driver, each with the state that its handler leaves, thrown or not.
  pub data Event (s : Serial) : Serial → Type 0 where
    sent_event : (r : ModbusRequest) (millis : Option ℕ) → Event s (send now r millis s).1
    timeout_event : (i : ℕ) (modbus : Bool) → Event s (handle_timeout i modbus s).1
    written_event : (i : ℕ) (err : Option ℕ) → Event s (write_done now i err s).1
    data_event : (bs : List ℕ) → Event s (handle_on_serial_data fmt now bs s).1
    open_event : Event s (open_port s).1
    opened_event : (failed : Bool) → Event s (open_done failed s).1

  -- Whatever event comes, also one whose handler throws: the queue holds requests in the order in which
  -- they were sent, no request twice, and only requests that were sent.
  pub Event-IsOrdered : {s t : Serial} → Event s t → IsOrdered s → IsOrdered t
  Event-IsOrdered {s} (sent_event r millis) h = send-IsOrdered now r millis s h
  Event-IsOrdered {s} (timeout_event i modbus) h = handle_timeout-KeepsOrder i modbus s h
  Event-IsOrdered {s} (written_event i err) h = write_done-KeepsOrder now i err s h
  Event-IsOrdered {s} (data_event bs) h = handle_on_serial_data-KeepsOrder bs s h
  Event-IsOrdered {s} open_event h = open_port-KeepsOrder s h
  Event-IsOrdered {s} (opened_event failed) h = open_done-KeepsOrder failed s h
