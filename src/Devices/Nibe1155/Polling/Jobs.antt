-- ===== src/Devices/Nibe1155/Polling/Jobs.antt =====
-- The queue of register jobs in handlePolling of nibe1155.ts: a poll takes the first job and settles its
-- promise, whatever the port answers.
use rpi_atmega324_modbus_gat.Prelude.{
  ℕ, zero, suc, ◌%◌, ◌≡◌, refl, ap, ◌∙◌, ◌⊎◌, inl, inr, Bool, true, false, ◌&&◌, Option, none, some,
  List, [], ◌∷◌, arith, ltb, ◌==◌, if◌then◌else◌, length, lt→ltb,
}
use rpi_atmega324_modbus_gat.Prelude.Num.{Num}
use rpi_atmega324_modbus_gat.Prelude.Result.{Result, ok, throw, ok_inj}
use rpi_atmega324_modbus_gat.Prelude.Action.{
  continue, get, modify, for_each, handled, pure, ◌>>◌, ◌>>=◌,
}
use rpi_atmega324_modbus_gat.Modbus.Frame.{ModbusAsciiFrame}
use rpi_atmega324_modbus_gat.Modbus.Request.{ModbusRequest}
use rpi_atmega324_modbus_gat.Modbus.Access.{Size}
use rpi_atmega324_modbus_gat.Devices.Registers.{Register}
use rpi_atmega324_modbus_gat.Devices.Value.{Date}
use rpi_atmega324_modbus_gat.Devices.Nibe1155.{
  Nibe1155, Failure, Target, Job, Event, single_value, resolved, rejected, attributes,
}
use rpi_atmega324_modbus_gat.Devices.Nibe1155.Polling.{
  Poll, parse_entry, parse_entries, parse_modbus_response, send, read_registers, read_register_now,
  write_register_now, poll_run, poll_log_set_values, handle_event_emitter, handle_polling,
  emit_change, changed_registers, poll_runs, is_long, quantity_of, emit, has_set_point, run_job,
  poll_one_more, is_read, resolve_target, target_id, target_size, target_value,
}

-- What the actions on the port leave alone: the queue, the counter and the set point.
abbrev frame : Nibe1155 → List Job × ℕ × Num
frame s = (s.rw_non_log_regs, s.read_non_log_reg_cnt, s.set_point_degree_minutes)

if_frame :
    {A : Type 0} (b : Bool) (x y : A) (f : A → Nibe1155) {q : List Job × ℕ × Num}
    → frame (f x) ≡ q
    → frame (f y) ≡ q
    → frame (f (if b then x else y)) ≡ q
if_frame true x y f h k = h
if_frame false x y f h k = k

parse_entry-frame :
    (f : ModbusAsciiFrame) (at : Date) (offset : ℕ) (o : Option Register) (s : Nibe1155)
    → frame (parse_entry f at offset o s).0 ≡ frame s
parse_entry-frame f at offset none s = refl
parse_entry-frame f at offset (some r) s =
    if_frame (is_long (s.values r).def.size) _ _ (λ (p : Nibe1155 × ℕ). p.0) refl refl

parse_entries-frame :
    (f : ModbusAsciiFrame) (at : Date) (i quantity offset : ℕ) (s : Nibe1155)
    → frame (parse_entries f at i quantity offset s) ≡ frame s
unfolding parse_entries
parse_entries-frame f at i zero offset s = refl
parse_entries-frame f at i (suc q) offset s =
    let p = parse_entry f at offset (s.id_map i) s in
    parse_entries-frame f at (suc i) q p.1 p.0 ∙ parse_entry-frame f at offset (s.id_map i) s

-- An action that leaves the frame alone, and one that besides never throws.
abbrev Keeps : {A : Type 0} → Poll A → Type 0
Keeps m = (s : Nibe1155) → frame (m s).1 ≡ frame s

abbrev RunsThrough : Poll (Unit {0}) → Type 0
RunsThrough m = (s : Nibe1155) → ((m s).0 ≡ ok tt) × (frame (m s).1 ≡ frame s)

continue-frame :
    {A B : Type 0} (f : A → Poll B) (x : Result Failure A × Nibe1155)
    → ((a : A) → Keeps (f a))
    → frame (continue f x).1 ≡ frame x.1
continue-frame f (ok a, t) l = l a t
continue-frame f (throw e, t) l = refl

>>=-Keeps :
    {A B : Type 0} (m : Poll A) (f : A → Poll B)
    → Keeps m
    → ((a : A) → Keeps (f a))
    → Keeps (m >>= f)
>>=-Keeps m f k l s = continue-frame f (m s) l ∙ k s

continue-RunsThrough :
    (m : Poll (Unit {0})) (x : Result Failure (Unit {0}) × Nibe1155)
    → x.0 ≡ ok tt
    → RunsThrough m
    → ((continue (λ _. m) x).0 ≡ ok tt) × (frame (continue (λ _. m) x).1 ≡ frame x.1)
continue-RunsThrough m (ok tt, t) e k = k t
continue-RunsThrough m (throw x, t) e k = cc

>>-RunsThrough : (m n : Poll (Unit {0})) → RunsThrough m → RunsThrough n → RunsThrough (m >> n)
>>-RunsThrough m n k l s = let (e, f) = continue-RunsThrough n (m s) (k s).0 l in (e, f ∙ (k s).1)

for_each-RunsThrough :
    {A : Type 0} (xs : List A) (f : A → Poll (Unit {0}))
    → ((a : A) → RunsThrough (f a))
    → RunsThrough (for_each xs f)
for_each-RunsThrough [] f k s = (refl, refl)
for_each-RunsThrough (a ∷ xs) f k s =
    >>-RunsThrough (f a) (for_each xs f) (k a) (for_each-RunsThrough xs f k) s

handled-RunsThrough :
    (x : Result Failure (Unit {0}) × Nibe1155)
    → ((handled (λ e s. (ok tt, s)) x).0 ≡ ok tt)
      × (frame (handled (λ e s. (ok tt, s)) x).1 ≡ frame x.1)
handled-RunsThrough (ok tt, s) = (refl, refl)
handled-RunsThrough (throw e, s) = (refl, refl)

handle_event_emitter-RunsThrough : RunsThrough handle_event_emitter
unfolding handle_event_emitter
handle_event_emitter-RunsThrough s =
    for_each-RunsThrough (changed_registers s attributes) emit_change (λ r t. (refl, refl)) s

parse_modbus_response-Keeps :
    (i quantity : ℕ) (f : ModbusAsciiFrame) (at : Date)
    → Keeps (parse_modbus_response i quantity f at)
unfolding parse_modbus_response
parse_modbus_response-Keeps i quantity f at s = parse_entries-frame f at i quantity 3 s

module _ (fmt : ℕ → List ℕ) (now : ℕ)
    (respond : List Event → ModbusRequest → Result Failure (ModbusAsciiFrame × Date)) where
  read_registers-Keeps : (i quantity : ℕ) → Keeps (read_registers fmt now respond i quantity)
  unfolding read_registers
  read_registers-Keeps i quantity = >>=-Keeps _ (send fmt now respond) (λ s. refl) (λ r s. refl)

  read_register_now-Keeps : (i : ℕ) (size : Size) → Keeps (read_register_now fmt now respond i size)
  unfolding read_register_now
  read_register_now-Keeps i size =
      let f : ModbusAsciiFrame × Date → Poll (ModbusAsciiFrame × Date) =
        λ p. parse_modbus_response i 1 p.0 p.1 >> pure p in
      >>=-Keeps (read_registers fmt now respond i (quantity_of size)) f
        (read_registers-Keeps i (quantity_of size))
        (λ p.
          >>=-Keeps (parse_modbus_response i 1 p.0 p.1) (λ u. pure p)
            (parse_modbus_response-Keeps i 1 p.0 p.1) (λ u s. refl))

  write_register_now-Keeps :
      (i : ℕ) (x : Num) (size : Size) → Keeps (write_register_now fmt now respond i x size)
  unfolding write_register_now
  write_register_now-Keeps i x size = >>=-Keeps _ (send fmt now respond) (λ s. refl) (λ r s. refl)

  poll_run-RunsThrough : (r : ℕ × ℕ) → RunsThrough (poll_run fmt now respond r)
  poll_run-RunsThrough (first, quantity) s =
      let m = read_registers fmt now respond first quantity in
      let f : ModbusAsciiFrame × Date → Poll (Unit {0}) =
        λ p. parse_modbus_response first quantity p.0 p.1 in
      let (e, h) = handled-RunsThrough ((m >>= f) s) in
      (
        e,
        h
            ∙ >>=-Keeps m f (read_registers-Keeps first quantity)
                (λ p. parse_modbus_response-Keeps first quantity p.0 p.1) s,
      )

  poll_log_set_values-RunsThrough : RunsThrough (poll_log_set_values fmt now respond)
  unfolding poll_log_set_values
  poll_log_set_values-RunsThrough s =
      >>-RunsThrough (for_each (poll_runs s.log_set_ids) (poll_run fmt now respond)) _
        (for_each-RunsThrough (poll_runs s.log_set_ids) (poll_run fmt now respond)
          poll_run-RunsThrough)
        (>>-RunsThrough handle_event_emitter _ handle_event_emitter-RunsThrough (λ t. (refl, refl)))
        s

  -- The latest event settles the promise.
  abbrev pub Settles : ℕ → List Event → Type 0
  Settles p [] = ⊥
  Settles p (e ∷ es) = (e ≡ resolved p) ⊎ (e ≡ rejected p)

  -- From an action that ends by resolving the promise to one that rejects it where the action throws.
  settle :
      (p : ℕ) (x : Result Failure (Unit {0}) × Nibe1155)
      → (x.0 ≡ ok tt → Settles p x.1.events)
      → Settles p (handled (λ e s. (ok tt, record s { events = rejected p ∷ s.events })) x).1.events
  settle p (ok tt, s) h = h refl
  settle p (throw e, s) h = inr refl

  continue-Settles :
      {A : Type 0} (p : ℕ) (f : A → Poll (Unit {0})) (y : Result Failure A × Nibe1155)
      → ((a : A) (t : Nibe1155) → Settles p (f a t).1.events)
      → (continue f y).0 ≡ ok tt
      → Settles p (continue f y).1.events
  continue-Settles p f (ok a, t) h e = h a t
  continue-Settles p f (throw x, t) h e = cc

  -- What holds of a job that ran: its promise is resolved unless it threw, and the frame is left alone.
  abbrev Ran : ℕ → Nibe1155 → Result Failure (Unit {0}) × Nibe1155 → Type 0
  Ran p s y = (y.0 ≡ ok tt → Settles p y.1.events) × (frame y.1 ≡ frame s)

  if_Ran :
      (b : Bool) (p : ℕ) (m n : Poll (Unit {0})) (s : Nibe1155)
      → Ran p s (m s)
      → Ran p s (n s)
      → Ran p s ((if b then m else n) s)
  if_Ran true p m n s h k = h
  if_Ran false p m n s h k = k

  run_job-Ran :
      (x : Job) (reg : Target) (s : Nibe1155) → Ran x.promise s (run_job fmt now respond x reg s)
  run_job-Ran x reg s =
      let i = target_id fmt now respond s reg in
      let size = target_size fmt now respond s reg in
      let read : ModbusAsciiFrame × Date → Poll (Unit {0}) = λ p. get >>= λ t.
      emit (single_value reg (target_value fmt now respond t p.0 reg) p.1)
      >> emit (resolved x.promise) in
      let written : ModbusAsciiFrame × Date → Poll (Unit {0}) = λ p. emit (resolved x.promise) in
      let m = read_register_now fmt now respond i size in
      let n = write_register_now fmt now respond i x.value size in
      if_Ran (is_read fmt now respond x.value) x.promise (m >>= read) (n >>= written) s
        (
          continue-Settles x.promise read (m s) (λ p t. inl refl),
          >>=-Keeps m read (read_register_now-Keeps i size) (λ p t. refl) s,
        )
        (
          continue-Settles x.promise written (n s) (λ p t. inl refl),
          >>=-Keeps n written (write_register_now-Keeps i x.value size) (λ p t. refl) s,
        )

  -- The turns on which a poll writes the set point of the degree minutes.
  abbrev pub is_set_point_turn : Nibe1155 → Bool
  is_set_point_turn s =
      s.read_non_log_reg_cnt % 2 == 1 && has_set_point fmt now respond s.set_point_degree_minutes

  settled_frame :
      (p : ℕ) (y : Result Failure (Unit {0}) × Nibe1155)
      → frame (handled (λ e s. (ok tt, record s { events = rejected p ∷ s.events })) y).1
        ≡ frame y.1
  settled_frame p (ok tt, s) = refl
  settled_frame p (throw e, s) = refl

  -- From a state in the middle of a poll.
  one_more_job :
      (u : Nibe1155) (x : Job) (rest : List Job)
      → u.rw_non_log_regs ≡ x ∷ rest
      → is_set_point_turn u ≡ false
      → let t = (poll_one_more fmt now respond u).1 in
        (t.rw_non_log_regs ≡ rest) × Settles x.promise t.events
  one_more_job u x rest e h =
      let reg = resolve_target fmt now respond u x.reg in
      let v = record u { rw_non_log_regs = rest } in
      let y = run_job fmt now respond x reg v in
      let (k, l) = run_job-Ran x reg v in
      let positive : ltb 0 (length (x ∷ rest)) ≡ true =
        lt→ltb 0 (length (x ∷ rest)) (omega arith) in
      rw h
        (rw e (rw positive (ap (λ q. q.0) (settled_frame x.promise y ∙ l), settle x.promise y k)))

  continue-ok :
      {A B : Type 0} (f : A → Poll B) (y : Result Failure A × Nibe1155) (a : A)
      → y.0 ≡ ok a
      → continue f y ≡ f a y.1
  continue-ok f (ok b, t) a e = ap (λ c. f c t) (ok_inj e)
  continue-ok f (throw x, t) a e = cc

  -- A poll that finds no other poll in progress, a job at the head of the queue, and a turn that is not
  -- the set point's: it takes that job off the queue and ends by settling the job's promise, resolved or
  -- rejected, whatever the port answers; the jobs behind it keep their order, and the next poll may start.
  pub handle_polling-job :
      (s : Nibe1155) (x : Job) (rest : List Job)
      → s.polling_in_progress ≡ false
      → s.rw_non_log_regs ≡ x ∷ rest
      → is_set_point_turn (record s { read_non_log_reg_cnt = suc s.read_non_log_reg_cnt }) ≡ false
      → let t = handle_polling fmt now respond s in
        (t.rw_non_log_regs ≡ rest) × Settles x.promise t.events × (t.polling_in_progress ≡ false)
  unfolding handle_polling
  handle_polling-job s x rest idle queue turn =
      let s' = record s { polling_in_progress = true } in
      let y = poll_log_set_values fmt now respond s' in
      let (e, f) = poll_log_set_values-RunsThrough s' in
      let u = record y.1 { read_non_log_reg_cnt = suc y.1.read_non_log_reg_cnt } in
      let (k, l) =
        one_more_job u x rest (ap (λ q. q.0) f ∙ queue)
          (ap (λ q. suc q.1 % 2 == 1 && has_set_point fmt now respond q.2) f ∙ turn) in
      let step : Unit {0} → Poll (Unit {0}) = λ _.
        modify (λ t. record t { read_non_log_reg_cnt = suc t.read_non_log_reg_cnt })
        >> poll_one_more fmt now respond in
      rw idle (rw (continue-ok step y tt e) (k, l, refl))
