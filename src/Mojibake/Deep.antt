-- ===== src/Mojibake/Deep.antt =====
-- The own properties of a response body, and the bodies in which no field is named `__proto__`.
use notes_of_ashen.Base.{
  ℕ, Text, text_eq, List, Option, Bool, true, false, not, ◌&&◌, ◌≡◌, refl, ap,
}
use notes_of_ashen.Json.{
  Json, Items, Fields, str, arr, obj, nil, cons, end, inherits, field, undef, null, bool, num,
}
use notes_of_ashen.Mojibake.{proto_key, inheriting, with_prototype, set_field, fix_deep, fix_fields}

-- A value with only the own properties of each of its objects.
unfoldable mutual
  pub own_content : Json → Json
  own_content (arr xs) = arr (own_items xs)
  own_content (obj fs) = obj (own_fields fs)
  own_content v = v

  pub own_items : Items → Items
  own_items nil = nil
  own_items (cons x xs) = cons (own_content x) (own_items xs)

  pub own_fields : Fields → Fields
  own_fields end = end
  own_fields (inherits fs) = end
  own_fields (field k v fs) = field k (own_content v) (own_fields fs)

-- No object in the value has a field `__proto__`, or a prototype of its own.
unfoldable mutual
  pub has_plain_keys : Json → Bool
  has_plain_keys (arr xs) = items_plain xs
  has_plain_keys (obj fs) = fields_plain fs
  has_plain_keys v = true

  pub items_plain : Items → Bool
  items_plain nil = true
  items_plain (cons x xs) = has_plain_keys x && items_plain xs

  pub fields_plain : Fields → Bool
  fields_plain end = true
  fields_plain (inherits fs) = false
  fields_plain (field k v fs) = not (text_eq k proto_key) && has_plain_keys v && fields_plain fs

-- The same of the outermost object alone.
unfoldable pub body_plain : Fields → Bool
body_plain end = true
body_plain (inherits fs) = false
body_plain (field k v fs) = not (text_eq k proto_key) && body_plain fs

own_fields-inheriting : (ps fs : Fields) → own_fields (inheriting ps fs) ≡ own_fields fs
unfolding own_content inheriting
own_fields-inheriting ps end = refl
own_fields-inheriting ps (inherits fs) = refl
own_fields-inheriting ps (field k v fs) = ap (field k (own_content v)) (own_fields-inheriting ps fs)

pub own_fields-with_prototype :
    (v : Json) (fs : Fields) → own_fields (with_prototype v fs) ≡ own_fields fs
own_fields-with_prototype (obj ps) fs = own_fields-inheriting ps fs
own_fields-with_prototype undef fs = refl
own_fields-with_prototype null fs = refl
own_fields-with_prototype (bool x) fs = refl
own_fields-with_prototype (num n) fs = refl
own_fields-with_prototype (str s) fs = refl
own_fields-with_prototype (arr xs) fs = refl

module _ (decode : List ℕ → Option Text) where
  fix_fields-inheriting :
      (ps fs : Fields) → fix_fields decode (inheriting ps fs) ≡ fix_fields decode fs
  unfolding fix_deep inheriting
  fix_fields-inheriting ps end = refl
  fix_fields-inheriting ps (inherits fs) = refl
  fix_fields-inheriting ps (field k v fs) =
      ap (set_field k (fix_deep decode v)) (fix_fields-inheriting ps fs)

  pub fix_fields-with_prototype :
      (v : Json) (fs : Fields) → fix_fields decode (with_prototype v fs) ≡ fix_fields decode fs
  fix_fields-with_prototype (obj ps) fs = fix_fields-inheriting ps fs
  fix_fields-with_prototype undef fs = refl
  fix_fields-with_prototype null fs = refl
  fix_fields-with_prototype (bool x) fs = refl
  fix_fields-with_prototype (num n) fs = refl
  fix_fields-with_prototype (str s) fs = refl
  fix_fields-with_prototype (arr xs) fs = refl
