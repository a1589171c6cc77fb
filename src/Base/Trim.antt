-- ===== src/Base/Trim.antt =====
-- Trimming a text twice is trimming it once.
use mathlib.Core.Path.{◌≡◌, refl, ap, ◌∙◌}
use mathlib.Core.Logic.{◌⊎◌, inl, inr}
use mathlib.Core.Bool.{false}
use mathlib.Core.List.{[], ◌∷◌, ◌++◌, reverse, reverse-reverse, reverse-cons, reverse-append}
use Prim.Native.Nat.{ℕ}
use notes_of_ashen.Base.Tests.{Bool-cases}
use notes_of_ashen.Base.Strings.{Text, is_space, trim_start, trim}

-- What is left starts with no blank.
trim_start-cases :
    (s : Text)
    → (trim_start s ≡ []) ⊎ ((c : ℕ) × (t : Text) × (trim_start s ≡ c ∷ t) × (is_space c ≡ false))
unfolding trim_start
trim_start-cases [] = inl refl
trim_start-cases (c ∷ s) = elim (Bool-cases (is_space c)) [
  | inl h ↦ rw h (trim_start-cases s)
  | inr h ↦ rw h (inr (c, s, refl, h))
]

trim_start_kept : (c : ℕ) (t : Text) → is_space c ≡ false → trim_start (c ∷ t) ≡ c ∷ t
unfolding trim_start
trim_start_kept c t h = rw h refl

trim_start_idem : (s : Text) → trim_start (trim_start s) ≡ trim_start s
unfolding trim_start
trim_start_idem s = elim (trim_start-cases s) [
  | inl h ↦ rw h refl
  | inr (c, t, h, k) ↦ rw h (trim_start_kept c t k)
]

trim_start_snoc :
    (l : Text) (c : ℕ) → is_space c ≡ false → trim_start (l ++ c ∷ []) ≡ trim_start l ++ c ∷ []
unfolding trim_start
trim_start_snoc [] c h = rw h refl
trim_start_snoc (d ∷ l) c h = elim (Bool-cases (is_space d)) [
  | inl e ↦ rw e (trim_start_snoc l c h)
  | inr e ↦ rw e refl
]

-- The end of a text is trimmed without touching its start.
trim_start-end :
    (c : ℕ) (t : Text)
    → is_space c ≡ false
    → reverse (trim_start (reverse (c ∷ t))) ≡ c ∷ reverse (trim_start (reverse t))
trim_start-end c t h =
    ap (λ l. reverse (trim_start l)) (reverse-cons c t)
    ∙ ap reverse (trim_start_snoc (reverse t) c h)
    ∙ reverse-append (trim_start (reverse t)) (c ∷ [])

trim_start-trim : (s : Text) → trim_start (trim s) ≡ trim s
unfolding trim trim_start
trim_start-trim s = elim (trim_start-cases s) [
  | inl h ↦ rw h refl
  | inr (c, t, h, k) ↦ rw (h, trim_start-end c t k) (trim_start_kept c _ k)
]

pub trim-trim : (s : Text) → trim (trim s) ≡ trim s
unfolding trim
trim-trim s =
    ap (λ l. reverse (trim_start (reverse l))) (trim_start-trim s)
    ∙ ap (λ l. reverse (trim_start l)) (reverse-reverse (trim_start (reverse (trim_start s))))
    ∙ ap reverse (trim_start_idem (reverse (trim_start s)))
