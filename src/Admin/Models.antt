-- ===== src/Admin/Models.antt =====
-- The list of models that `normalizeAIModels` makes.
use notes_of_ashen.Base.{
  Text, [], List, ◌∷◌, ◌++◌, map, filter, any, All, All-append, trim, truthy, text_eq, text_eq_iff,
  true, false, ◌≡◌, arith, Bool-cases, inl, inr,
}
use notes_of_ashen.Admin.AiSettings.{unique, normalize_ai_models}

-- The texts of a list differ from each other.
unfoldable pub Distinct : List Text → Type 0
Distinct [] = Unit
Distinct (t ∷ ts) = All (λ s. text_eq s t ≡ false) ts × Distinct ts

Distinct-snoc :
    (ts : List Text) (t : Text)
    → Distinct ts
    → any (λ s. text_eq s t) ts ≡ false
    → Distinct (ts ++ t ∷ [])
unfolding Distinct
Distinct-snoc [] t h k = (tt, tt)
Distinct-snoc (u ∷ ts) t h k =
    let e : text_eq t u ≡ false = ground (arith, text_eq_iff t u, text_eq_iff u t) in
    (
      All-append (λ s. text_eq s u ≡ false) ts (t ∷ []) h.0 (e, tt),
      Distinct-snoc ts t h.1 (ground arith),
    )

truthy-snoc :
    (ts : List Text) (t : Text)
    → All (λ s. truthy s ≡ true) ts
    → truthy t ≡ true
    → All (λ s. truthy s ≡ true) (ts ++ t ∷ [])
truthy-snoc ts t h k = All-append (λ s. truthy s ≡ true) ts (t ∷ []) h (k, tt)

pub unique-Distinct :
    (seen ts : List Text)
    → Distinct seen
    → All (λ s. truthy s ≡ true) seen
    → All (λ s. truthy s ≡ true) ts
    → Distinct (unique seen ts) × All (λ s. truthy s ≡ true) (unique seen ts)
unfolding unique
unique-Distinct seen [] h k l = (h, k)
unique-Distinct seen (t ∷ ts) h k l = elim (Bool-cases (any (λ s. text_eq s t) seen)) [
  | inl e ↦ rw e (unique-Distinct seen ts h k l.1)
  | inr e ↦ rw e (
      unique-Distinct (seen ++ t ∷ []) ts (Distinct-snoc seen t h e) (truthy-snoc seen t k l.0) l.1)
]

pub filter-truthy : (ts : List Text) → All (λ s. truthy s ≡ true) (filter truthy ts)
filter-truthy [] = tt
filter-truthy (t ∷ ts) = elim (Bool-cases (truthy t)) [
  | inl e ↦ rw e (e, filter-truthy ts)
  | inr e ↦ rw e (filter-truthy ts)
]

-- The list of models that is offered names each once, and none is empty.
normalize_ai_models-Distinct :
    (names : List Text)
    → Distinct (normalize_ai_models names) × All (λ s. truthy s ≡ true) (normalize_ai_models names)
unfolding normalize_ai_models Distinct
normalize_ai_models-Distinct names =
    unique-Distinct [] (filter truthy (map trim names)) tt tt (filter-truthy (map trim names))
