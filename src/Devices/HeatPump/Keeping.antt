-- ===== src/Devices/HeatPump/Keeping.antt =====
-- Actions of heat-pump.ts that leave the state and the desired state alone, and what they can result in.
use rpi_atmega324_modbus_gat.Prelude.{
  ◌≡◌, refl, ◌∙◌, subst, ◌⊎◌, Bool, true, false, Option, none, some, if◌then◌else◌,
}
use rpi_atmega324_modbus_gat.Prelude.Result.{Result, ok, throw, ok_inj}
use rpi_atmega324_modbus_gat.Prelude.Action.{continue, ◌>>=◌, ◌>>◌, pure}
use rpi_atmega324_modbus_gat.Devices.HeatPump.{State, off, error, Fault, HeatPump, Step}

-- The fields that no action of a handler touches.
abbrev pub mode : HeatPump → State × Option State
mode s = (s.state, s.desired_state)

abbrev pub KeepsMode : {A : Type 0} → Step A → Type 0
KeepsMode m = (s : HeatPump) → mode (m s).1 ≡ mode s

pub continue-mode :
    {A B : Type 0} (f : A → Step B) (x : Result Fault A × HeatPump)
    → ((a : A) → KeepsMode (f a))
    → mode (continue f x).1 ≡ mode x.1
continue-mode f (ok a, t) l = l a t
continue-mode f (throw e, t) l = refl

pub >>=-KeepsMode :
    {A B : Type 0} (m : Step A) (f : A → Step B)
    → KeepsMode m
    → ((a : A) → KeepsMode (f a))
    → KeepsMode (m >>= f)
>>=-KeepsMode m f k l s = continue-mode f (m s) l ∙ k s

pub >>-KeepsMode :
    {B : Type 0} (m : Step (Unit {0})) (n : Step B) → KeepsMode m → KeepsMode n → KeepsMode (m >> n)
>>-KeepsMode m n k l = >>=-KeepsMode m (λ _. n) k (λ _. l)

pub if-KeepsMode :
    {A : Type 0} (b : Bool) (m n : Step A)
    → KeepsMode m
    → KeepsMode n
    → KeepsMode (if b then m else n)
if-KeepsMode true m n k l = k
if-KeepsMode false m n k l = l

pub if_mode :
    {A : Type 0} (b : Bool) (x y : A × HeatPump) {q : State × Option State}
    → mode x.1 ≡ q
    → mode y.1 ≡ q
    → mode (if b then x else y).1 ≡ q
if_mode true x y k l = k
if_mode false x y k l = l

-- An action that besides gives only results with `P`.
abbrev pub Yields : {A : Type 0} → (A → Type 0) → Step A → Type 0
Yields {A} P m = (s : HeatPump) → (mode (m s).1 ≡ mode s) × ((o : A) → (m s).0 ≡ ok o → P o)

pub pure-Yields : {A : Type 0} (P : A → Type 0) (a : A) → P a → Yields P (pure a)
pure-Yields P a h s = (refl, λ o e. subst P (ok_inj e) h)

pub continue-Yields :
    {A B : Type 0} (P : B → Type 0) (f : A → Step B) (x : Result Fault A × HeatPump)
    → ((a : A) → x.0 ≡ ok a → Yields P (f a))
    → (mode (continue f x).1 ≡ mode x.1) × ((o : B) → (continue f x).0 ≡ ok o → P o)
continue-Yields P f (ok a, t) l = l a refl t
continue-Yields P f (throw e, t) l = (refl, λ o k. cc)

pub >>=-Yields :
    {A B : Type 0} (Q : A → Type 0) (P : B → Type 0) (m : Step A) (f : A → Step B)
    → Yields Q m
    → ((a : A) → Q a → Yields P (f a))
    → Yields P (m >>= f)
>>=-Yields Q P m f k l s =
    let (h, g) = continue-Yields P f (m s) (λ a e. l a ((k s).1 a e)) in (h ∙ (k s).0, g)

pub sense-Yields :
    {A B : Type 0} (P : B → Type 0) (m : Step A) (f : A → Step B)
    → KeepsMode m
    → ((a : A) → Yields P (f a))
    → Yields P (m >>= f)
sense-Yields P m f k l s = let (h, g) = continue-Yields P f (m s) (λ a e. l a) in (h ∙ k s, g)

pub >>-Yields :
    {B : Type 0} (P : B → Type 0) (m : Step (Unit {0})) (n : Step B)
    → KeepsMode m
    → Yields P n
    → Yields P (m >> n)
>>-Yields P m n k l = sense-Yields P m (λ _. n) k (λ _. l)

pub if-Yields :
    {A : Type 0} (P : A → Type 0) (b : Bool) (m n : Step A)
    → Yields P m
    → Yields P n
    → Yields P (if b then m else n)
if-Yields P true m n k l = k
if-Yields P false m n k l = l

-- How the start of a mode ends: it goes on, or gives off or error.
abbrev pub IsStart : Option State → Type 0
IsStart o = (o ≡ none) ⊎ ((o ≡ some off) ⊎ (o ≡ some error))

-- The exits of a mode `q` that is still desired.
abbrev pub IsExit : State → Option State → Type 0
IsExit q o = (o ≡ some q) ⊎ ((o ≡ some off) ⊎ (o ≡ some error))
