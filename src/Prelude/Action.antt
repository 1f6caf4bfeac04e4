-- ===== src/Prelude/Action.antt =====
-- Code that works on a state and may throw: what it did to the state before it threw stays done.
use rpi_atmega324_modbus_gat.Prelude.{Bool, List, [], ◌∷◌, if◌then◌else◌}
use rpi_atmega324_modbus_gat.Prelude.Result.{Result, ok, throw}

abbrev pub Action : Type 0 → Type 0 → Type 0 → Type 0
Action S E A = S → Result E A × S

abbrev pub continue : {S E A B : Type 0} → (A → Action S E B) → Result E A × S → Result E B × S
continue f (ok a, s) = f a s
continue f (throw e, s) = (throw e, s)

infixl 5 ◌>>=◌ ◌>>◌
abbrev pub ◌>>=◌ : {S E A B : Type 0} → Action S E A → (A → Action S E B) → Action S E B
◌>>=◌ m f s = continue f (m s)

abbrev pub ◌>>◌ : {S E B : Type 0} → Action S E (Unit {0}) → Action S E B → Action S E B
m >> k = m >>= λ _. k

abbrev pub pure : {S E A : Type 0} → A → Action S E A
pure a s = (ok a, s)

abbrev pub get : {S E : Type 0} → Action S E S
get s = (ok s, s)

abbrev pub modify : {S E : Type 0} → (S → S) → Action S E (Unit {0})
modify f s = (ok tt, f s)

abbrev pub raise : {S E A : Type 0} → E → Action S E A
raise e s = (throw e, s)

abbrev pub lift : {S E A : Type 0} → Result E A → Action S E A
lift r s = (r, s)

abbrev pub handled : {S E A : Type 0} → (E → Action S E A) → Result E A × S → Result E A × S
handled h (ok a, s) = (ok a, s)
handled h (throw e, s) = h e s

-- `try { m } catch (err) { h(err) }`.
abbrev pub try_catch : {S E A : Type 0} → Action S E A → (E → Action S E A) → Action S E A
try_catch m h s = handled h (m s)

-- `if (b) { m }`.
abbrev pub when : {S E : Type 0} → Bool → Action S E (Unit {0}) → Action S E (Unit {0})
when b m = if b then m else pure tt

-- `for (const a of as) { m(a) }`.
abbrev pub for_each :
    {S E A : Type 0} → List A → (A → Action S E (Unit {0})) → Action S E (Unit {0})
for_each [] m = pure tt
for_each (a ∷ as') m = do m a; for_each as' m
