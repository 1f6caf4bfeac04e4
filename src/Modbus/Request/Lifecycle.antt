-- ===== src/Modbus/Request/Lifecycle.antt =====
-- The life of a ModbusRequest (modbus-request.ts): what holds after any setters that did not throw.
use rpi_atmega324_modbus_gat.Prelude.{
  ℕ, ◌≡◌, refl, ◌∙◌, Bool, true, false, Option, none, some, List, [], ◌∷◌, arith, length, some_inj,
  ==_iff,
}
use rpi_atmega324_modbus_gat.Prelude.Result.{ok}
use rpi_atmega324_modbus_gat.Modbus.Frame.{ModbusAsciiFrame}
use rpi_atmega324_modbus_gat.Modbus.Request.{
  ModbusRequest, ModbusRequestError, is_set, new_request, same_bytes, set_request_received,
  set_response, set_sent_at, set_error,
}

-- One call of a setter that returns.
pub data Step (r : ModbusRequest) : ModbusRequest → Type 0 where
  receive :
      (now : ℕ) (f : ModbusAsciiFrame) {r' : ModbusRequest}
      → set_request_received now f r ≡ ok r'
      → Step r r'
  respond :
      (now : ℕ) (f : ModbusAsciiFrame) {r' : ModbusRequest}
      → set_response now f r ≡ ok r'
      → Step r r'
  send : (at : ℕ) {r' : ModbusRequest} → set_sent_at at r ≡ ok r' → Step r r'
  fail : (e : ModbusRequestError) {r' : ModbusRequest} → set_error e r ≡ ok r' → Step r r'

pub data Reach (r : ModbusRequest) : ModbusRequest → Type 0 where
  here : Reach r r
  next : {s t : ModbusRequest} → Reach r s → Step s t → Reach r t

-- The frame taken as the echo holds the bytes of the request; each frame has its time; a response
-- stands only behind an echo.
pub record WellFormed (r : ModbusRequest) : Type 0 where
  pub echoed : (f : ModbusAsciiFrame) → r.request_received ≡ some f → f.buffer ≡ r.request.buffer
  pub received_stamped : is_set r.request_received ≡ is_set r.request_received_at
  pub response_stamped : is_set r.response ≡ is_set r.response_at
  pub response_behind : is_set r.response ≡ true → is_set r.request_received ≡ true

new_request-WellFormed : (f : ModbusAsciiFrame) (log : Bool) → WellFormed (new_request f log)
unfolding new_request
new_request-WellFormed f log = record {
  echoed = λ g h. cc;
  received_stamped = refl;
  response_stamped = refl;
  response_behind = λ h. cc;
}

same_bytes-eq : (xs ys : List ℕ) → length xs ≡ length ys → same_bytes xs ys ≡ true → ys ≡ xs
unfolding same_bytes
same_bytes-eq [] [] l h = refl
same_bytes-eq [] (y ∷ ys) l h = absurd (omega arith)
same_bytes-eq (x ∷ xs) [] l h = cc
same_bytes-eq (x ∷ xs) (y ∷ ys) l h = ground (arith, same_bytes-eq xs ys (omega arith))

-- What a successful call of each setter says.
receive-inv :
    (now : ℕ) (f : ModbusAsciiFrame) (r r' : ModbusRequest)
    → set_request_received now f r ≡ ok r'
    → (r' ≡ record r { request_received = some f; request_received_at = some now })
      × (is_set r.request_received ≡ false)
      × (f.buffer ≡ r.request.buffer)
unfolding set_request_received
receive-inv now f r r' h = ground (
  arith,
  same_bytes-eq r.request.buffer f.buffer,
  ==_iff (length r.request.buffer) (length f.buffer),
)

respond-inv :
    (now : ℕ) (f : ModbusAsciiFrame) (r r' : ModbusRequest)
    → set_response now f r ≡ ok r'
    → (r' ≡ record r { response = some f; response_at = some now })
      × (is_set r.error ≡ false)
      × (is_set r.response ≡ false)
      × (is_set r.request_received ≡ true)
unfolding set_response
respond-inv now f r r' h = ground arith

send-inv :
    (at : ℕ) (r r' : ModbusRequest)
    → set_sent_at at r ≡ ok r'
    → (r' ≡ record r { sent_at = some at }) × (is_set r.sent_at ≡ false)
unfolding set_sent_at
send-inv at r r' h = ground arith

fail-inv :
    (e : ModbusRequestError) (r r' : ModbusRequest)
    → set_error e r ≡ ok r'
    → (r' ≡ record r { error = some e }) × (is_set r.error ≡ false)
unfolding set_error
fail-inv e r r' h = ground arith

Step-WellFormed : {r r' : ModbusRequest} → Step r r' → WellFormed r → WellFormed r'
Step-WellFormed {r} {r'} (receive now f h) w =
    let (e, fresh, same) = receive-inv now f r r' h in
    rw e (record {
      echoed = λ g k. rw (← some_inj k) same;
      received_stamped = refl;
      response_stamped = w.response_stamped;
      response_behind = λ k. refl;
    })
Step-WellFormed {r} {r'} (respond now f h) w =
    let (e, clear, fresh, echo) = respond-inv now f r r' h in
    rw e (record {
      echoed = w.echoed;
      received_stamped = w.received_stamped;
      response_stamped = refl;
      response_behind = λ k. echo;
    })
Step-WellFormed {r} {r'} (send at h) w = rw ((send-inv at r r' h).0) (record {
  echoed = w.echoed;
  received_stamped = w.received_stamped;
  response_stamped = w.response_stamped;
  response_behind = w.response_behind;
})
Step-WellFormed {r} {r'} (fail x h) w = rw ((fail-inv x r r' h).0) (record {
  echoed = w.echoed;
  received_stamped = w.received_stamped;
  response_stamped = w.response_stamped;
  response_behind = w.response_behind;
})

-- From a new request on, whatever setters are called and in whatever order: the echo holds the bytes
-- of the request, each received frame has its time, and a response stands only behind an echo.
pub Reach-WellFormed :
    (f : ModbusAsciiFrame) (log : Bool) (r : ModbusRequest)
    → Reach (new_request f log) r
    → WellFormed r
Reach-WellFormed f log r here = new_request-WellFormed f log
Reach-WellFormed f log r (next {s} before st) = Step-WellFormed st (Reach-WellFormed f log s before)

-- What is set in the first is the same in the second.
abbrev pub Keeps {ℓ} : {A : Type ℓ} → Option A → Option A → Type ℓ
Keeps {A} o o' = (a : A) → o ≡ some a → o' ≡ some a

pub record IsKept (r r' : ModbusRequest) : Type 0 where
  pub request : r'.request ≡ r.request
  pub is_log_set : r'.is_log_set_register ≡ r.is_log_set_register
  pub received : Keeps r.request_received r'.request_received
  pub response : Keeps r.response r'.response
  pub sent : Keeps r.sent_at r'.sent_at
  pub error : Keeps r.error r'.error

same-IsKept : (r : ModbusRequest) → IsKept r r
same-IsKept r = record {
  request = refl;
  is_log_set = refl;
  received = λ a h. h;
  response = λ a h. h;
  sent = λ a h. h;
  error = λ a h. h;
}

fresh-Keeps {ℓ} : {A : Type ℓ} (o o' : Option A) → is_set o ≡ false → Keeps o o'
fresh-Keeps none o' h a k = cc
fresh-Keeps (some b) o' h a k = cc

Step-IsKept : {r r' : ModbusRequest} → Step r r' → IsKept r r'
Step-IsKept {r} {r'} (receive now f h) =
    let (e, fresh, same) = receive-inv now f r r' h in
    rw e (record {
      request = refl;
      is_log_set = refl;
      received = fresh-Keeps _ _ fresh;
      response = λ a k. k;
      sent = λ a k. k;
      error = λ a k. k;
    })
Step-IsKept {r} {r'} (respond now f h) =
    let (e, clear, fresh, echo) = respond-inv now f r r' h in
    rw e (record {
      request = refl;
      is_log_set = refl;
      received = λ a k. k;
      response = fresh-Keeps _ _ fresh;
      sent = λ a k. k;
      error = λ a k. k;
    })
Step-IsKept {r} {r'} (send at h) =
    let (e, fresh) = send-inv at r r' h in
    rw e (record {
      request = refl;
      is_log_set = refl;
      received = λ a k. k;
      response = λ a k. k;
      sent = fresh-Keeps _ _ fresh;
      error = λ a k. k;
    })
Step-IsKept {r} {r'} (fail x h) =
    let (e, fresh) = fail-inv x r r' h in
    rw e (record {
      request = refl;
      is_log_set = refl;
      received = λ a k. k;
      response = λ a k. k;
      sent = λ a k. k;
      error = fresh-Keeps _ _ fresh;
    })

IsKept-trans : (r s t : ModbusRequest) → IsKept r s → IsKept s t → IsKept r t
IsKept-trans r s t h k = record {
  request = k.request ∙ h.request;
  is_log_set = k.is_log_set ∙ h.is_log_set;
  received = λ a e. k.received a (h.received a e);
  response = λ a e. k.response a (h.response a e);
  sent = λ a e. k.sent a (h.sent a e);
  error = λ a e. k.error a (h.error a e);
}

-- Each field is written once: what has been set stays as it is through all later calls that return.
pub Reach-IsKept : (r r' : ModbusRequest) → Reach r r' → IsKept r r'
Reach-IsKept r r' here = same-IsKept r
Reach-IsKept r r' (next {s} before st) =
    IsKept-trans r s r' (Reach-IsKept r s before) (Step-IsKept st)
