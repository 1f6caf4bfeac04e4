-- ===== src/Users/Attribute.antt =====
-- The JavaScript values that the constructors of db/user.ts, client/auth-user.ts and client/user-login.ts
-- check: texts, as lists of character codes, and objects as lists of attributes.
use rpi_atmega324_modbus_gat.Prelude.{
  ℕ, suc, ◌≡◌, refl, Bool, true, false, ◌&&◌, Option, none, some, List, [], ◌∷◌, arith, ◌==◌,
  if◌then◌else◌, ==→eq, and_left, and_right, ==_iff,
}
use rpi_atmega324_modbus_gat.Prelude.Num.{Num}

abbrev pub Text : Type 0
Text = List ℕ

-- `===` between texts.
abbrev pub same_text : Text → Text → Bool
same_text [] [] = true
same_text [] (b ∷ bs) = false
same_text (a ∷ as') [] = false
same_text (a ∷ as') (b ∷ bs) = a == b && same_text as' bs

-- `text.startsWith(prefix)`, also as `text.indexOf(prefix) === 0`.
abbrev pub starts_with : Text → Text → Bool
starts_with [] t = true
starts_with (a ∷ as') [] = false
starts_with (a ∷ as') (b ∷ bs) = a == b && starts_with as' bs

pub same_text_refl : (t : Text) → same_text t t ≡ true
same_text_refl [] = refl
same_text_refl (a ∷ as') = ground (arith, ==_iff a a, same_text_refl as')

cons_eq : {a b : ℕ} {xs ys : Text} → a ≡ b → xs ≡ ys → a ∷ xs ≡ b ∷ ys
cons_eq p q = λ i. p i ∷ q i

pub same_text-eq : (s t : Text) → same_text s t ≡ true → s ≡ t
same_text-eq [] [] h = refl
same_text-eq [] (b ∷ bs) h = cc
same_text-eq (a ∷ as') [] h = cc
same_text-eq (a ∷ as') (b ∷ bs) h =
    cons_eq (==→eq a b (and_left (a == b) (same_text as' bs) h))
      (same_text-eq as' bs (and_right (a == b) (same_text as' bs) h))

-- The names of attributes that the constructors know, and the others.
pub data Key : Type 0 where
  userid surname firstname password password_hash login logout : Key
  at socket id stay_logged_in : Key
  other_key : ℕ → Key

abbrev key_number : Key → ℕ
key_number userid = 0
key_number surname = 1
key_number firstname = 2
key_number password = 3
key_number password_hash = 4
key_number login = 5
key_number logout = 6
key_number at = 7
key_number socket = 8
key_number id = 9
key_number stay_logged_in = 10
key_number (other_key n) = suc (suc (suc (suc (suc (suc (suc (suc (suc (suc (suc n))))))))))

abbrev pub same_key : Key → Key → Bool
same_key j k = key_number j == key_number k

-- A value that is no object with attributes that matter; `other` is any other object or a function.
pub data Leaf : Type 0 where
  undefined_value null_value other : Leaf
  text : Text → Leaf
  boolean : Bool → Leaf
  number : Num → Leaf
  date : Num → Leaf

pub data Value : Type 0 where
  leaf : Leaf → Value
  object : List (Key × Leaf) → Value

-- `data[k]`.
abbrev pub leaf_of : Key → List (Key × Leaf) → Leaf
leaf_of k [] = undefined_value
leaf_of k ((j, v) ∷ d) = if same_key j k then v else leaf_of k d

abbrev pub value_of : Key → List (Key × Value) → Value
value_of k [] = leaf undefined_value
value_of k ((j, v) ∷ d) = if same_key j k then v else value_of k d

abbrev pub is_undefined : Value → Bool
is_undefined (leaf undefined_value) = true
is_undefined (leaf null_value) = false
is_undefined (leaf other) = false
is_undefined (leaf (text s)) = false
is_undefined (leaf (boolean b)) = false
is_undefined (leaf (number x)) = false
is_undefined (leaf (date x)) = false
is_undefined (object d) = false

abbrev non_empty : Text → Option Text
non_empty [] = none
non_empty (c ∷ cs) = some (c ∷ cs)

-- What passes `if (!x || typeof(x) !== 'string') { throw }`: a text that is not empty.
abbrev pub leaf_text : Leaf → Option Text
leaf_text undefined_value = none
leaf_text null_value = none
leaf_text other = none
leaf_text (text s) = non_empty s
leaf_text (boolean b) = none
leaf_text (number x) = none
leaf_text (date x) = none

abbrev pub value_text : Value → Option Text
value_text (leaf v) = leaf_text v
value_text (object d) = none

abbrev pub count_set : {A : Type 0} → Option A → ℕ
count_set none = 0
count_set (some a) = 1
