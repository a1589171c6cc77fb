-- ===== src/Stream/Split.antt =====
-- frontend/src/utils/ragStream.ts: `split(/\r?\n\r?\n/)`, which takes the leftmost match each time,
-- and what it makes of a text that comes in parts.
use notes_of_ashen.Base.{
  ℕ, zero, suc, ◌≤◌, ◌<◌, Text, [], List, ◌∷◌, ◌++◌, length, Option, none, some, ◌==◌,
  if◌then◌else◌, ◌≡◌, refl, sym, ap, ◌∙◌, arith, Option-cases, inl, inr,
}

-- What follows a line feed, or \r?\n, at the head of a text.
abbrev pub strip_line_feed : Text → Option Text
strip_line_feed [] = none
strip_line_feed (c ∷ s) = if c == 10 then some s else none

abbrev strip_newline : Text → Option Text
strip_newline [] = none
strip_newline (c ∷ s) = if c == 10 then some s else if c == 13 then strip_line_feed s else none

unfoldable pub strip_break : Text → Option Text
strip_break s = elim (strip_newline s) [ none ↦ none | some r ↦ strip_newline r ]

-- The text before the first break, and the text behind it.
unfoldable pub find_break : Text → Option (Text × Text)
unfolding strip_break
find_break [] = none
find_break (c ∷ s) = elim (strip_break (c ∷ s)) [
  | some r ↦ some ([], r)
  | none ↦ elim (find_break s) [ none ↦ none | some (u, r) ↦ some (c ∷ u, r) ]
]

-- The blocks and the last part, which no break ends; a unit of fuel is a break.
split_breaks : ℕ → Text → List Text × Text
split_breaks zero s = ([], s)
split_breaks (suc n) s = elim (find_break s) [
  | none ↦ ([], s)
  | some (u, r) ↦ let (blocks, last) = split_breaks n r in (u ∷ blocks, last)
]

-- A text has fewer breaks than units.
unfoldable pub split : Text → List Text × Text
unfolding split_breaks
split s = split_breaks (length s) s

strip_break-length : (s r : Text) → strip_break s ≡ some r → length r < length s
unfolding strip_break
strip_break-length [] r h = ground arith
strip_break-length (c ∷ []) r h = ground arith
strip_break-length (c ∷ d ∷ []) r h = ground arith
strip_break-length (c ∷ d ∷ e ∷ []) r h = ground arith
strip_break-length (c ∷ d ∷ e ∷ f ∷ s) r h = ground arith

find_break-length : (s u r : Text) → find_break s ≡ some (u, r) → length r < length s
unfolding find_break
find_break-length [] u r h = ground arith
find_break-length (c ∷ s) u r h = elim (Option-cases (strip_break (c ∷ s))) [
  | inl e ↦ elim (Option-cases (find_break s)) [
    | inl k ↦ ground arith
    | inr (v, k) ↦ ground (arith, find_break-length s v.0 v.1)
  ]
  | inr (v, e) ↦ ground (arith, strip_break-length (c ∷ s) v e)
]

strip_break-append : (s t r : Text) → strip_break s ≡ some r → strip_break (s ++ t) ≡ some (r ++ t)
unfolding strip_break
strip_break-append [] t r h = ground arith
strip_break-append (c ∷ []) t r h = ground arith
strip_break-append (c ∷ d ∷ []) t r h = ground arith
strip_break-append (c ∷ d ∷ e ∷ []) t r h = ground arith
strip_break-append (c ∷ d ∷ e ∷ f ∷ s) t r h = ground arith

-- A text with a break further on has none at its head that the text alone does not show.
strip_break-none :
    (c : ℕ) (s t : Text) (v : Text × Text)
    → strip_break (c ∷ s) ≡ none
    → find_break s ≡ some v
    → strip_break (c ∷ s ++ t) ≡ none
unfolding strip_break find_break
strip_break-none c [] t v h k = ground arith
strip_break-none c (d ∷ []) t v h k = ground arith
strip_break-none c (d ∷ e ∷ []) t v h k = ground arith
strip_break-none c (d ∷ e ∷ f ∷ s) t v h k = ground arith

find_break-append :
    (s t u r : Text) → find_break s ≡ some (u, r) → find_break (s ++ t) ≡ some (u, r ++ t)
unfolding find_break
find_break-append [] t u r h = ground arith
find_break-append (c ∷ s) t u r h = elim (Option-cases (strip_break (c ∷ s))) [
  | inl e ↦ elim (Option-cases (find_break s)) [
    | inl k ↦ ground arith
    | inr (v, k) ↦ ground (arith, find_break-append s t v.0 v.1, strip_break-none c s t v e k)
  ]
  | inr (v, e) ↦ ground (arith, strip_break-append (c ∷ s) t v e)
]

split_breaks-none : (n : ℕ) (s : Text) → find_break s ≡ none → split_breaks n s ≡ ([], s)
unfolding split_breaks
split_breaks-none zero s h = refl
split_breaks-none (suc n) s h = rw (h, split_breaks)

find_break_empty : (s : Text) → length s ≤ 0 → find_break s ≡ none
unfolding find_break
find_break_empty [] h = refl
find_break_empty (c ∷ s) h = ground arith

split_breaks_fuel :
    (n m : ℕ) (s : Text) → length s ≤ n → length s ≤ m → split_breaks n s ≡ split_breaks m s
unfolding split_breaks
split_breaks_fuel zero m s h k = sym (split_breaks-none m s (find_break_empty s h))
split_breaks_fuel (suc n) zero s h k = split_breaks-none (suc n) s (find_break_empty s k)
split_breaks_fuel (suc n) (suc m) s h k = elim (Option-cases (find_break s)) [
  | inl e ↦ split_breaks-none (suc n) s e ∙ sym (split_breaks-none (suc m) s e)
  | inr ((u, r), e) ↦
      let shorter : length r < length s = find_break-length s u r e in
      rw (e, split_breaks, split_breaks_fuel n m r (omega arith) (omega arith))
]

pub split-none : (s : Text) → find_break s ≡ none → split s ≡ ([], s)
unfolding split
split-none s h = split_breaks-none (length s) s h

split_breaks-some :
    (n : ℕ) (s u r : Text)
    → find_break s ≡ some (u, r)
    → split_breaks (suc n) s ≡ (u ∷ (split_breaks n r).0, (split_breaks n r).1)
unfolding split_breaks
split_breaks-some n s u r h = rw (h, split_breaks)

split-some : (s u r : Text) → find_break s ≡ some (u, r) → split s ≡ (u ∷ (split r).0, (split r).1)
unfolding split find_break
split-some [] u r h = ground arith
split-some (c ∷ s) u r h =
    let shorter : length r < suc (length s) = find_break-length (c ∷ s) u r h in
    let same : split_breaks (length s) r ≡ split_breaks (length r) r =
      split_breaks_fuel (length s) (length r) r (omega arith) (omega arith) in
    split_breaks-some (length s) (c ∷ s) u r h ∙ ap (λ (v : List Text × Text). (u ∷ v.0, v.1)) same

split_rest_bounded : (n : ℕ) (s : Text) → length s ≤ n → find_break (split s).1 ≡ none
split_rest_bounded zero s h = let e = find_break_empty s h in rw (split-none s e, e)
split_rest_bounded (suc n) s h = elim (Option-cases (find_break s)) [
  | inl e ↦ rw (split-none s e, e)
  | inr ((u, r), e) ↦
      let shorter : length r < length s = find_break-length s u r e in
      rw (split-some s u r e) (split_rest_bounded n r (omega arith))
]

-- What is left holds no break.
pub split_rest : (s : Text) → find_break (split s).1 ≡ none
split_rest s = split_rest_bounded (length s) s (omega arith)

split-append_bounded :
    (n : ℕ) (s t : Text)
    → length s ≤ n
    → split (s ++ t) ≡ ((split s).0 ++ (split ((split s).1 ++ t)).0, (split ((split s).1 ++ t)).1)
split-append_bounded zero s t h = rw (split-none s (find_break_empty s h))
split-append_bounded (suc n) s t h = elim (Option-cases (find_break s)) [
  | inl e ↦ rw (split-none s e)
  | inr ((u, r), e) ↦
      let shorter : length r < length s = find_break-length s u r e in
      rw (
        split-some s u r e,
        split-some (s ++ t) u (r ++ t) (find_break-append s t u r e),
        split-append_bounded n r t (omega arith),
      )
]

-- A text that comes in two parts is split as a whole by splitting what is left of the first part
-- together with the second.
pub split-append :
    (s t : Text)
    → split (s ++ t) ≡ ((split s).0 ++ (split ((split s).1 ++ t)).0, (split ((split s).1 ++ t)).1)
split-append s t = split-append_bounded (length s) s t (omega arith)
