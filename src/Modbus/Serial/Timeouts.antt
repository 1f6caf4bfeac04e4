-- ===== src/Modbus/Serial/Timeouts.antt =====
-- The timeouts of modbus-serial.ts: what handleTimeout does to the request at the head of the queue, and
-- to one that still waits behind it.
use rpi_atmega324_modbus_gat.Prelude.{
  ℕ, ◌≡◌, ap, ◌∙◌, ◌≢◌, Bool, true, false, none, some, List, [], ◌∷◌, arith, drop,
}
use rpi_atmega324_modbus_gat.Prelude.Result.{ok, throw}
use rpi_atmega324_modbus_gat.Modbus.Request.{ModbusRequestError, error_already_set, set_error}
use rpi_atmega324_modbus_gat.Modbus.Serial.{
  PendingRequest, Effect, writes, rejects, Serial, timeout_error, handle_timeout, request_fault,
}

-- The request after the timeout has been handled: the error is set, and no timer runs.
abbrev pub timed_out : ℕ → Bool → PendingRequest → PendingRequest
timed_out i modbus r = record {
  requ = record (r.requ) { error = some (timeout_error i modbus) };
  timer = none;
  timer_modbus = none;
}

abbrev pub announce : List ℕ → List Effect → List Effect
announce [] es = es
announce (i ∷ rest) es = writes i ∷ es

-- A timeout of the request `i`, which has no error yet: its promise is rejected with the error of this
-- timer and both of its timers are off, and every other request is untouched. What leaves the queue is
-- the request at the head, be it `i` or another; the one behind it, if there is one, is written.
pub handle_timeout_lem :
    (i h : ℕ) (rest : List ℕ) (modbus : Bool) (s : Serial)
    → s.pending ≡ h ∷ rest
    → (s.memory i).requ.error ≡ none
    → let (r, t) = handle_timeout i modbus s in
      (r ≡ ok tt)
      × (t.pending ≡ rest)
      × (t.memory i ≡ timed_out i modbus (s.memory i))
      × ((j : ℕ) → j ≢ i → t.memory j ≡ s.memory j)
      × (t.effects ≡ announce rest (rejects i (timeout_error i modbus) ∷ s.effects))
unfolding handle_timeout set_error
handle_timeout_lem i h [] modbus s p e =
    (ground arith, ground arith, ground arith, λ j k. ground arith, ground arith)
handle_timeout_lem i h (n ∷ rest) modbus s p e =
    (ground arith, ground arith, ground arith, λ j k. ground arith, ground arith)

-- The timers of a request start when it is sent to the queue, so one that waits behind another can
-- time out first. Then the request `h` at the head is taken out in its place, neither resolved nor
-- rejected, and `i`, already rejected, is written; the timeout of `h` then takes `i` out unanswered.
pub waiting_timeout :
    (h i : ℕ) (s : Serial)
    → s.pending ≡ h ∷ i ∷ []
    → h ≢ i
    → (s.memory h).requ.error ≡ none
    → (s.memory i).requ.error ≡ none
    → let t = (handle_timeout i false s).1 in
      let u = (handle_timeout h true t).1 in
      (t.pending ≡ i ∷ [])
      × (t.memory h ≡ s.memory h)
      × (t.effects ≡ writes i ∷ rejects i (timeout_error i false) ∷ s.effects)
      × (u.pending ≡ [])
      × (u.effects
          ≡ rejects h (timeout_error h true)
            ∷ writes i
            ∷ rejects i (timeout_error i false)
            ∷ s.effects)
waiting_timeout h i s p ne eh ei =
    let t = (handle_timeout i false s).1 in
    let (ok1, pending, timed, others, effects) = handle_timeout_lem i h (i ∷ []) false s p ei in
    let same : t.memory h ≡ s.memory h = others h ne in
    let (ok2, pending', timed', others', effects') =
      handle_timeout_lem h i [] true t pending
        (ap (λ (r : PendingRequest). r.requ.error) same ∙ eh) in
    (
      pending,
      same,
      effects,
      pending',
      effects' ∙ ap (λ es. rejects h (timeout_error h true) ∷ es) effects,
    )

-- A timeout of a request that has an error throws out of the timer's callback: one request has left the
-- queue, nothing is settled, and the next request is not written.
pub handle_timeout_again :
    (i : ℕ) (modbus : Bool) (s : Serial) {x : ModbusRequestError}
    → (s.memory i).requ.error ≡ some x
    → let (r, t) = handle_timeout i modbus s in
      (r ≡ throw (request_fault error_already_set))
      × (t.pending ≡ drop 1 s.pending)
      × (t.effects ≡ s.effects)
unfolding handle_timeout set_error
handle_timeout_again i modbus s e = (ground arith, ground arith, ground arith)
