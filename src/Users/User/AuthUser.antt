-- ===== src/Users/User/AuthUser.antt =====
-- client/auth-user.ts: what the browser is told of a user. The constructor takes the attributes that are
-- texts and not empty, and refuses an object that has others.
use rpi_atmega324_modbus_gat.Prelude.{
  ℕ, ◌+◌, ◌≡◌, refl, sym, ap, ◌∙◌, subst, Bool, true, false, ◌&&◌, Option, none, some, List, [],
  ◌∷◌, ◌++◌, arith, ◌==◌, if◌then◌else◌, length,
}
use rpi_atmega324_modbus_gat.Users.Attribute.{
  Text, same_text, same_text_refl, Key, userid, surname, firstname, undefined_value, text, Value,
  leaf, object, value_of, value_text, count_set, Leaf, null_value, other, boolean, number, date,
  leaf_text,
}
use rpi_atmega324_modbus_gat.Users.User.{text_attribute}

pub record AuthUser : Type 0 where
  pub auth_userid : Option Text
  pub auth_surname : Option Text
  pub auth_firstname : Option Text

abbrev of_values : Option Text → Option Text → Option Text → AuthUser
of_values i s f = record { auth_userid = i; auth_surname = s; auth_firstname = f }

-- `Object.keys(this).length`.
abbrev attribute_count : AuthUser → ℕ
attribute_count u = count_set u.auth_userid + count_set u.auth_surname + count_set u.auth_firstname

abbrev if_complete : List (Key × Value) → AuthUser → Option AuthUser
if_complete d u = if length d == attribute_count u then some u else none

-- The constructor; `none` is the error 'invalid IAuthUser'.
unfoldable pub new_auth_user : List (Key × Value) → Option AuthUser
new_auth_user d = if_complete d (
    of_values (value_text (value_of userid d)) (value_text (value_of surname d))
      (value_text (value_of firstname d)))

abbrev text_or_undefined : Option Text → Value
text_or_undefined none = leaf undefined_value
text_or_undefined (some s) = leaf (text s)

-- toObject: the attribute `userid` is there also when it has no value.
unfoldable pub auth_to_object : AuthUser → List (Key × Value)
auth_to_object u =
    (userid, text_or_undefined u.auth_userid)
    ∷ (text_attribute surname u.auth_surname ++ text_attribute firstname u.auth_firstname)

abbrev same_leaf : Leaf → Option Text → Bool
same_leaf undefined_value none = true
same_leaf undefined_value (some t) = false
same_leaf (text s) none = false
same_leaf (text s) (some t) = same_text s t
same_leaf null_value o = false
same_leaf other o = false
same_leaf (boolean b) o = false
same_leaf (number x) o = false
same_leaf (date x) o = false

abbrev same_value : Value → Option Text → Bool
same_value (leaf v) o = same_leaf v o
same_value (object d) o = false

-- isEqual, of an object with the attributes of IAuthUser.
unfoldable pub is_equal : AuthUser → List (Key × Value) → Bool
is_equal u d =
    length d == attribute_count u
    && (same_value (value_of userid d) u.auth_userid
        && (same_value (value_of surname d) u.auth_surname
            && same_value (value_of firstname d) u.auth_firstname))

-- A text that was taken from an attribute is taken again.
taken_again : (v : Value) {s : Text} → value_text v ≡ some s → leaf_text (text s) ≡ some s
taken_again (object d) h = cc
taken_again (leaf v) h = taken_leaf v h
  where
    taken_text : (t : Text) {s : Text} → leaf_text (text t) ≡ some s → leaf_text (text s) ≡ some s
    taken_text [] h = cc
    taken_text (c ∷ cs) h = ground arith

    taken_leaf : (v : Leaf) {s : Text} → leaf_text v ≡ some s → leaf_text (text s) ≡ some s
    taken_leaf (text t) h = taken_text t h
    taken_leaf undefined_value h = cc
    taken_leaf null_value h = cc
    taken_leaf other h = cc
    taken_leaf (boolean b) h = cc
    taken_leaf (number x) h = cc
    taken_leaf (date x) h = cc

-- What has been taken from the attributes: a text that is not empty, or nothing.
abbrev IsTaken : Option Text → Type 0
IsTaken none = Unit {0}
IsTaken (some s) = leaf_text (text s) ≡ some s

value_text-IsTaken : (v : Value) (o : Option Text) → value_text v ≡ o → IsTaken o
value_text-IsTaken v none h = tt
value_text-IsTaken v (some s) h = taken_again v h

round_trip :
    (i : Text) (s f : Option Text)
    → leaf_text (text i) ≡ some i
    → IsTaken s
    → IsTaken f
    → let u = of_values (some i) s f in
      (new_auth_user (auth_to_object u) ≡ some u) × (is_equal u (auth_to_object u) ≡ true)
unfolding new_auth_user auth_to_object is_equal
round_trip i none none h j k = (rw h refl, rw (same_text_refl i) refl)
round_trip i (some s) none h j k = (rw (h, j) refl, rw (same_text_refl i, same_text_refl s) refl)
round_trip i none (some f) h j k = (rw (h, k) refl, rw (same_text_refl i, same_text_refl f) refl)
round_trip i (some s) (some f) h j k =
    (rw (h, j, k) refl, rw (same_text_refl i, same_text_refl s, same_text_refl f) refl)

built_from :
    (d : List (Key × Value)) (u : AuthUser)
    → new_auth_user d ≡ some u
    → of_values
        (value_text (value_of userid d))
        (value_text (value_of surname d))
        (value_text (value_of firstname d))
      ≡ u
unfolding new_auth_user
built_from d u h = ground arith

-- An object that the constructor accepts and that has a user id: toObject gives an object from which the
-- constructor builds the same AuthUser, and isEqual finds that object equal.
pub new_auth_user-auth_to_object :
    (d : List (Key × Value)) (u : AuthUser) (i : Text)
    → new_auth_user d ≡ some u
    → u.auth_userid ≡ some i
    → (new_auth_user (auth_to_object u) ≡ some u) × (is_equal u (auth_to_object u) ≡ true)
new_auth_user-auth_to_object d u i h k =
    let e = built_from d u h in
    let same : of_values (some i) u.auth_surname u.auth_firstname ≡ u =
      ap (λ (o : Option Text). of_values o u.auth_surname u.auth_firstname) (sym k) in
    subst
      (λ (v : AuthUser).
        (new_auth_user (auth_to_object v) ≡ some v) × (is_equal v (auth_to_object v) ≡ true))
      same
      (round_trip i u.auth_surname u.auth_firstname
        (taken_again (value_of userid d) (ap (λ (v : AuthUser). v.auth_userid) e ∙ k))
        (value_text-IsTaken (value_of surname d) u.auth_surname
          (ap (λ (v : AuthUser). v.auth_surname) e))
        (value_text-IsTaken (value_of firstname d) u.auth_firstname
          (ap (λ (v : AuthUser). v.auth_firstname) e)))
