-- ===== src/Http/Order.antt =====
-- The text of an object does not depend on the order of its properties.
use notes_of_ashen.Base.{
  Text, text_eq, [], List, ◌∷◌, Bool, true, false, not, if◌then◌else◌, ◌≡◌, refl, ap, ◌∙◌, arith,
  Bool-cases, inl, inr,
}
use notes_of_ashen.Json
use notes_of_ashen.Json.{Json, Fields}
use notes_of_ashen.Http.Stringify.{
  Printer, text_ltb, insert_entry, sort_entries, entries, is_missing, stable_stringify,
}

-- Of two texts that differ, one is less than the other.
text_ltb-not : (s t : Text) → text_eq s t ≡ false → text_ltb s t ≡ not (text_ltb t s)
unfolding text_ltb text_eq
text_ltb-not [] [] h = let no : ⊥ = ground (arith, h) in elim no [ ]
text_ltb-not [] (b ∷ t) h = refl
text_ltb-not (a ∷ s) [] h = refl
text_ltb-not (a ∷ s) (b ∷ t) h = ground (arith, text_ltb-not s t)

-- What is not above `f` is below whatever `f` is below.
text_ltb_trans : (f a b : Text) → text_ltb f a ≡ false → text_ltb f b ≡ true → text_ltb a b ≡ true
unfolding text_ltb
text_ltb_trans [] [] b h k = k
text_ltb_trans [] (c ∷ a) b h k = let no : ⊥ = ground (arith, h) in elim no [ ]
text_ltb_trans (e ∷ f) a [] h k = let no : ⊥ = ground (arith, k) in elim no [ ]
text_ltb_trans (e ∷ f) [] (d ∷ b) h k = refl
text_ltb_trans (e ∷ f) (c ∷ a) (d ∷ b) h k = ground (arith, text_ltb_trans f a b)

insert_entry_swap :
    (a b : Text × Text) (es : List (Text × Text))
    → text_eq a.0 b.0 ≡ false
    → insert_entry a (insert_entry b es) ≡ insert_entry b (insert_entry a es)
unfolding insert_entry
insert_entry_swap a b [] h = elim (Bool-cases (text_ltb b.0 a.0)) [
  | inl e ↦ rw (text_ltb-not a.0 b.0 h, e) refl
  | inr e ↦ rw (text_ltb-not a.0 b.0 h, e) refl
]
insert_entry_swap a b (f ∷ fs) h = elim (Bool-cases (text_ltb f.0 b.0)) [
  | inl p ↦ elim (Bool-cases (text_ltb f.0 a.0)) [
    | inl q ↦ rw (p, q, p) (ap (λ es. f ∷ es) (insert_entry_swap a b fs h))
    | inr q ↦ rw (p, q, text_ltb_trans f.0 a.0 b.0 q p, p) refl
  ]
  | inr p ↦ elim (Bool-cases (text_ltb f.0 a.0)) [
    | inl q ↦ rw (p, q, text_ltb_trans f.0 b.0 a.0 p q, p) refl
    | inr q ↦ elim (Bool-cases (text_ltb b.0 a.0)) [
      | inl e ↦ rw (p, q, text_ltb-not a.0 b.0 h, e) refl
      | inr e ↦ rw (p, q, text_ltb-not a.0 b.0 h, e, p) refl
    ]
  ]
]

-- The same properties in another order, for keys that differ.
pub data Shuffled : Fields → Fields → Type 0 where
  same : {fs : Fields} → Shuffled fs fs
  keep :
      {fs gs : Fields} (k : Text) (v : Json)
      → Shuffled fs gs
      → Shuffled (Json.field k v fs) (Json.field k v gs)
  swap :
      {fs : Fields} (k j : Text) (v w : Json)
      → text_eq k j ≡ false
      → Shuffled (Json.field k v (Json.field j w fs)) (Json.field j w (Json.field k v fs))
  chain : {fs gs hs : Fields} → Shuffled fs gs → Shuffled gs hs → Shuffled fs hs

keep_entry :
    (b : Bool) (e : Text × Text) (es fs : List (Text × Text))
    → sort_entries es ≡ sort_entries fs
    → sort_entries (if b then es else e ∷ es) ≡ sort_entries (if b then fs else e ∷ fs)
unfolding sort_entries
keep_entry true e es fs h = h
keep_entry false e es fs h = rw h refl

swap_entries :
    (b c : Bool) (d e : Text × Text) (es : List (Text × Text))
    → text_eq d.0 e.0 ≡ false
    → let ds = if b then es else d ∷ es in
      let fs = if c then es else e ∷ es in
      sort_entries (if b then fs else d ∷ fs) ≡ sort_entries (if c then ds else e ∷ ds)
unfolding sort_entries
swap_entries true c d e es h = refl
swap_entries false true d e es h = refl
swap_entries false false d e es h = insert_entry_swap d e (sort_entries es) h

module _ (p : Printer) where
  sort_Shuffled :
      {fs gs : Fields} → Shuffled fs gs → sort_entries (entries p fs) ≡ sort_entries (entries p gs)
  unfolding sort_entries entries
  sort_Shuffled same = refl
  sort_Shuffled (keep k v s) =
      keep_entry (is_missing v) (k, stable_stringify p v) _ _ (sort_Shuffled s)
  sort_Shuffled (swap k j v w h) =
      swap_entries (is_missing v) (is_missing w) (k, stable_stringify p v) (j, stable_stringify p w)
        _ h
  sort_Shuffled (chain s t) = sort_Shuffled s ∙ sort_Shuffled t

  -- Two objects whose properties are the same and stand in another order have the same text, where
  -- the keys that change places differ.
  pub stable_stringify-Shuffled :
      (fs gs : Fields)
      → Shuffled fs gs
      → stable_stringify p (Json.obj fs) ≡ stable_stringify p (Json.obj gs)
  unfolding stable_stringify
  stable_stringify-Shuffled fs gs s = rw (sort_Shuffled s) refl
