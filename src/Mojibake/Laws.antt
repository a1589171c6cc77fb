-- ===== src/Mojibake/Laws.antt =====
-- The repair of texts is safe to apply again: to a text, and to a whole response body.
use notes_of_ashen.Base.{
  ℕ, Text, text_eq, List, Option, true, false, not, ◌&&◌, ◌≡◌, ◌∙◌, ◌⊎◌, inl, inr, refl, ap, ap₂,
  sym, arith, Bool-cases,
}
use notes_of_ashen.Json.{
  Json, Items, Fields, str, arr, obj, nil, cons, end, inherits, field, undef, null, bool, num,
}
use notes_of_ashen.Mojibake.{
  has_mojibake, has_cjk, mojibake_score, looks_better, decode_repeatedly, decode_byte_runs,
  fix_visible_mojibake, fix_deep, fix_items, fix_fields, proto_key, set_field,
}
use notes_of_ashen.Mojibake.Deep.{
  own_content, own_items, own_fields, has_plain_keys, items_plain, fields_plain,
  own_fields-with_prototype, fix_fields-with_prototype,
}

-- A text looks better than another only if it shows no sign of a wrong character set at all.
looks_better-parts :
    (d o : Text) → looks_better d o ≡ true → (has_mojibake d ≡ false) × (has_cjk d ≡ true)
unfolding looks_better mojibake_score
looks_better-parts d o h = ground arith

module _ (decode : List ℕ → Option Text) where
  fix-clean : (v : Text) → has_mojibake v ≡ false → fix_visible_mojibake decode v ≡ v
  unfolding fix_visible_mojibake
  fix-clean v h = rw h

  -- The repair leaves a text alone, or gives one with Chinese characters and no sign of a wrong
  -- character set.
  pub fix_visible_mojibake_clean :
      (v : Text)
      → (fix_visible_mojibake decode v ≡ v)
        ⊎ ((has_mojibake (fix_visible_mojibake decode v) ≡ false)
            × (has_cjk (fix_visible_mojibake decode v) ≡ true))
  unfolding fix_visible_mojibake
  fix_visible_mojibake_clean v =
      let decoded = decode_repeatedly decode v in
      let partially_decoded = decode_byte_runs decode v in
      ground (arith, looks_better-parts decoded v, looks_better-parts partially_decoded v)

  -- Applying the repair again changes nothing: a text is never decoded twice.
  pub fix_visible_mojibake_idem :
      (v : Text)
      → fix_visible_mojibake decode (fix_visible_mojibake decode v) ≡ fix_visible_mojibake decode v
  fix_visible_mojibake_idem v = elim (fix_visible_mojibake_clean v) [
    | inl same ↦ ap (fix_visible_mojibake decode) same
    | inr clean ↦ fix-clean (fix_visible_mojibake decode v) clean.0
  ]

  fix_fields-set_field :
      (k : Text) (v : Json) (fs : Fields)
      → fix_deep decode v ≡ own_content v
      → fix_fields decode fs ≡ own_fields fs
      → fix_fields decode (set_field k v fs) ≡ own_fields (set_field k v fs)
  unfolding set_field fix_deep own_content
  fix_fields-set_field k v fs h e = elim (Bool-cases (text_eq k proto_key)) [
    | inl p ↦
        rw p (fix_fields-with_prototype decode v fs ∙ e ∙ sym (own_fields-with_prototype v fs))
    | inr p ↦ rw (p, p) (ap₂ (field k) h e)
  ]

  mutual
    unfolding fix_deep own_content

    fix_deep-own :
        (v : Json) → fix_deep decode (fix_deep decode v) ≡ own_content (fix_deep decode v)
    fix_deep-own undef = refl
    fix_deep-own null = refl
    fix_deep-own (bool x) = refl
    fix_deep-own (num n) = refl
    fix_deep-own (str s) = ap str (fix_visible_mojibake_idem s)
    fix_deep-own (arr xs) = ap arr (fix_items-own xs)
    fix_deep-own (obj fs) = ap obj (fix_fields-own fs)

    fix_items-own :
        (xs : Items) → fix_items decode (fix_items decode xs) ≡ own_items (fix_items decode xs)
    fix_items-own nil = refl
    fix_items-own (cons x xs) = ap₂ cons (fix_deep-own x) (fix_items-own xs)

    fix_fields-own :
        (fs : Fields) → fix_fields decode (fix_fields decode fs) ≡ own_fields (fix_fields decode fs)
    fix_fields-own end = refl
    fix_fields-own (inherits fs) = refl
    fix_fields-own (field k v fs) =
        fix_fields-set_field k (fix_deep decode v) (fix_fields decode fs) (fix_deep-own v)
          (fix_fields-own fs)

  set_field-own :
      (k : Text) (v : Json) (fs : Fields)
      → (not (text_eq k proto_key) && has_plain_keys v && fields_plain fs) ≡ true
      → (has_plain_keys v ≡ true → own_content (fix_deep decode v) ≡ fix_deep decode v)
      → (fields_plain fs ≡ true → own_fields (fix_fields decode fs) ≡ fix_fields decode fs)
      → let gs = set_field k (fix_deep decode v) (fix_fields decode fs) in own_fields gs ≡ gs
  unfolding set_field own_content
  set_field-own k v fs h e f = elim (Bool-cases (text_eq k proto_key)) [
    | inl p ↦ let no : ⊥ = ground (arith, h, p) in elim no [ ]
    | inr p ↦ rw p (ap₂ (field k) (e (ground (arith, h))) (f (ground (arith, h))))
  ]

  mutual
    unfolding fix_deep own_content has_plain_keys

    plain-own :
        (v : Json) → has_plain_keys v ≡ true → own_content (fix_deep decode v) ≡ fix_deep decode v
    plain-own undef h = refl
    plain-own null h = refl
    plain-own (bool x) h = refl
    plain-own (num n) h = refl
    plain-own (str s) h = refl
    plain-own (arr xs) h = ap arr (items_plain-own xs h)
    plain-own (obj fs) h = ap obj (fields_plain-own fs h)

    items_plain-own :
        (xs : Items) → items_plain xs ≡ true → own_items (fix_items decode xs) ≡ fix_items decode xs
    items_plain-own nil h = refl
    items_plain-own (cons x xs) h =
        ap₂ cons (plain-own x (ground (arith, h))) (items_plain-own xs (ground (arith, h)))

    fields_plain-own :
        (fs : Fields)
        → fields_plain fs ≡ true
        → own_fields (fix_fields decode fs) ≡ fix_fields decode fs
    fields_plain-own end h = refl
    fields_plain-own (inherits fs) h = refl
    fields_plain-own (field k v fs) h = set_field-own k v fs h (plain-own v) (fields_plain-own fs)

  -- Repairing a response body that is repaired gives its own properties, at every depth, and changes
  -- none of them: what is lost is at most what an object inherits from a prototype that the first
  -- repair has made of a field `__proto__`. Unless some object of the body as received has such a
  -- field, or a prototype already, repairing it again changes nothing at all.
  pub fix_deep_idem :
      (v : Json)
      → let w = fix_deep decode v in
        (fix_deep decode w ≡ own_content w) × ((has_plain_keys v ≡ false) ⊎ (fix_deep decode w ≡ w))
  fix_deep_idem v = (
    fix_deep-own v,
    elim (Bool-cases (has_plain_keys v)) [
      | inl h ↦ inr (fix_deep-own v ∙ plain-own v h)
      | inr h ↦ inl h
    ],
  )
