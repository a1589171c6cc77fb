-- ===== src/Json.antt =====
-- The values that a response body holds once it is parsed, with frontend/src/utils/response.ts.
-- Numbers are natural numbers; the keys of an object are taken to be distinct. `undef` is a property
-- that is there and undefined. The properties of an object are its own ones, and, behind `inherits`,
-- those of an object that was made its prototype; a body that has just been parsed has none of these.
use notes_of_ashen.Base.{
  ℕ, Text, codes, text_eq, Option, none, some, Bool, true, false, not, ◌&&◌, is_some, ◌==◌,
  if◌then◌else◌,
}

mutual
  pub data Json : Type 0 where
    undef null : Json
    bool : Bool → Json
    num : ℕ → Json
    str : Text → Json
    arr : Items → Json
    obj : Fields → Json

  pub data Items : Type 0 where
    nil : Items
    cons : Json → Items → Items

  pub data Fields : Type 0 where
    end : Fields
    inherits : Fields → Fields
    field : Text → Json → Fields → Fields

unfoldable pub find_field : Text → Fields → Option Json
find_field k end = none
find_field k (inherits fs) = find_field k fs
find_field k (field j v fs) = if text_eq j k then some v else find_field k fs

-- The property where it is the object's own.
unfoldable pub own_field : Text → Fields → Option Json
own_field k end = none
own_field k (inherits fs) = none
own_field k (field j v fs) = if text_eq j k then some v else own_field k fs

-- Object.prototype.hasOwnProperty.call(value, k)
abbrev has_own : Text → Json → Bool
has_own k (obj fs) = is_some (own_field k fs)
has_own k _ = false

-- value.k, where `value` is an object; undefined else
unfoldable pub property : Text → Json → Option Json
property k (obj fs) = find_field k fs
property k _ = none

abbrev pub is_zero : Option Json → Bool
is_zero (some (num n)) = n == 0
is_zero _ = false

abbrev pub is_text : Option Json → Bool
is_text (some (str s)) = true
is_text _ = false

-- !hasOwnProperty('data') || typeof value.data !== 'undefined'
abbrev pub data_given : Option Json → Bool
data_given none = true
data_given (some undef) = false
data_given (some _) = true

-- isSuccessResponse
unfoldable pub is_success_response : Json → Bool
is_success_response (obj fs) =
    is_zero (find_field (codes "code") fs)
    && is_text (find_field (codes "message") fs)
    && data_given (own_field (codes "data") fs)
is_success_response _ = false

-- isNoDataResponse
unfoldable pub is_no_data_response : Json → Bool
unfolding is_success_response
is_no_data_response v = is_success_response v && not (has_own (codes "data") v)

-- A property that is a text, or a number.
unfoldable pub text_property : Text → Json → Option Text
text_property k v = elim (property k v) [ some (str s) ↦ some s | _ ↦ none ]

unfoldable pub num_property : Text → Json → Option ℕ
num_property k v = elim (property k v) [ some (num n) ↦ some n | _ ↦ none ]
