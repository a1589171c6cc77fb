-- ===== src/Mojibake/Success.antt =====
-- Whether a response body counts as a success, before and after the repair of its texts.
use notes_of_ashen.Base.{
  ℕ, Text, codes, text_eq, List, Option, none, some, true, false, ◌≡◌, refl, arith,
}
use notes_of_ashen.Json.{
  Json, Fields, obj, end, inherits, field, is_success_response, find_field, own_field, is_zero,
  is_text, data_given,
}
use notes_of_ashen.Mojibake.{proto_key, inheriting, set_field, fix_deep, fix_fields}
use notes_of_ashen.Mojibake.Deep.{body_plain}

module _ (decode : List ℕ → Option Text) where
  fixed : Option Json → Option Json
  fixed none = none
  fixed (some v) = some (fix_deep decode v)

  set_plain :
      (k : Text) (v : Json) (fs : Fields)
      → text_eq k proto_key ≡ false
      → set_field k v fs ≡ field k v fs
  unfolding set_field
  set_plain k v fs h = rw h refl

  find_field-fix_fields :
      (k : Text) (fs : Fields)
      → body_plain fs ≡ true
      → find_field k (fix_fields decode fs) ≡ fixed (find_field k fs)
  unfolding find_field fix_deep fixed body_plain
  find_field-fix_fields k end h = refl
  find_field-fix_fields k (inherits fs) h = let no : ⊥ = ground (arith, h) in elim no [ ]
  find_field-fix_fields k (field j v fs) h =
      rw (set_plain j (fix_deep decode v) (fix_fields decode fs) (ground (arith, h)))
        (ground (arith, h, find_field-fix_fields k fs))

  own_field-fix_fields :
      (k : Text) (fs : Fields)
      → body_plain fs ≡ true
      → own_field k (fix_fields decode fs) ≡ fixed (own_field k fs)
  unfolding own_field fix_deep fixed body_plain
  own_field-fix_fields k end h = refl
  own_field-fix_fields k (inherits fs) h = let no : ⊥ = ground (arith, h) in elim no [ ]
  own_field-fix_fields k (field j v fs) h =
      rw (set_plain j (fix_deep decode v) (fix_fields decode fs) (ground (arith, h)))
        (ground (arith, h, own_field-fix_fields k fs))

  is_zero-fixed : (o : Option Json) → is_zero (fixed o) ≡ is_zero o
  unfolding fixed fix_deep
  is_zero-fixed o = ground arith

  is_text-fixed : (o : Option Json) → is_text (fixed o) ≡ is_text o
  unfolding fixed fix_deep
  is_text-fixed o = ground arith

  data_given-fixed : (o : Option Json) → data_given (fixed o) ≡ data_given o
  unfolding fixed fix_deep
  data_given-fixed o = ground arith

  -- A repaired body whose outermost object has no field `__proto__` is a success exactly where the
  -- body as received is one: the repair of texts turns no such error into a success, nor the other
  -- way round.
  pub is_success_response-fix_deep :
      (fs : Fields)
      → body_plain fs ≡ true
      → is_success_response (fix_deep decode (obj fs)) ≡ is_success_response (obj fs)
  unfolding is_success_response fix_deep
  is_success_response-fix_deep fs h =
      rw
        (
          find_field-fix_fields (codes "code") fs h,
          find_field-fix_fields (codes "message") fs h,
          own_field-fix_fields (codes "data") fs h,
          is_zero-fixed (find_field (codes "code") fs),
          is_text-fixed (find_field (codes "message") fs),
          data_given-fixed (own_field (codes "data") fs),
        )
        refl

  -- A body whose only field is `__proto__` is no success as received, and the repair makes it one
  -- wherever the value of that field would be one.
  pub fix_deep_proto_success :
      (fs : Fields)
      → body_plain fs ≡ true
      → is_success_response (obj fs) ≡ true
      → (is_success_response (obj (field proto_key (obj fs) end)) ≡ false)
        × (is_success_response (fix_deep decode (obj (field proto_key (obj fs) end))) ≡ true)
  unfolding is_success_response fix_deep set_field inheriting find_field own_field text_eq
  fix_deep_proto_success fs h e = (
    refl,
    rw
        (
          find_field-fix_fields (codes "code") fs h,
          find_field-fix_fields (codes "message") fs h,
          is_zero-fixed (find_field (codes "code") fs),
          is_text-fixed (find_field (codes "message") fs),
        )
        (ground (arith, e)),
  )
