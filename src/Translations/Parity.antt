-- ===== src/Translations/Parity.antt =====
-- The two dictionaries have the same keys, and texts with the same placeholders.
use notes_of_ashen.Base.{
  ℕ, Text, codes, text_eq, [], List, ◌∷◌, ◌++◌, Option, none, some, any, all, Bool, true, false,
  ◌&&◌, ◌==◌, ◌≡◌, refl, sym, arith, text_eq_iff, if◌then◌else◌, Bool-cases, inl, inr,
}
use notes_of_ashen.Errors.Locale.{zh, en}
use notes_of_ashen.Translations.Lines.{Line, find_line}
use notes_of_ashen.Translations.{dictionaries, translate}
use notes_of_ashen.Translations.ZhA.{zh_a}
use notes_of_ashen.Translations.ZhB.{zh_b}
use notes_of_ashen.Translations.ZhC.{zh_c}
use notes_of_ashen.Translations.ZhD.{zh_d}
use notes_of_ashen.Translations.ZhE.{zh_e}
use notes_of_ashen.Translations.ZhF.{zh_f}
use notes_of_ashen.Translations.ZhG.{zh_g}
use notes_of_ashen.Translations.EnA.{en_a}
use notes_of_ashen.Translations.EnB.{en_b}
use notes_of_ashen.Translations.EnC.{en_c}
use notes_of_ashen.Translations.EnD.{en_d}
use notes_of_ashen.Translations.EnE.{en_e}
use notes_of_ashen.Translations.EnF.{en_f}
use notes_of_ashen.Translations.EnG.{en_g}

-- The word behind an open brace, after one more unit.
abbrev next_word : ℕ → Option Text → Option Text
next_word c o =
    if c == b'{'
    then some []
    else if c == b'}'
    then none
    else elim o [ none ↦ none | some w ↦ some (w ++ c ∷ []) ]

abbrev closed : ℕ → Option Text → List Text → List Text
closed c none ws = ws
closed c (some w) ws = if c == b'}' then w ∷ ws else ws

words_from : Option Text → Text → List Text
words_from o [] = []
words_from o (c ∷ s) = closed c o (words_from (next_word c o) s)

-- The words in braces of a text.
unfoldable pub placeholders : Text → List Text
unfolding words_from
placeholders s = words_from none s

abbrev has_all : List Text → List Text → Bool
has_all vs ws = all (λ w. any (λ v. text_eq v w) vs) ws

-- Each has the words of the other.
unfoldable pub same_words : List Text → List Text → Bool
same_words vs ws = has_all vs ws && has_all ws vs

unfoldable pub aligned : List Line → List Line → Bool
unfolding same_words placeholders
aligned [] [] = true
aligned (l ∷ ls) (m ∷ ms) =
    text_eq (codes l.key) (codes m.key)
    && (same_words (placeholders (codes l.text)) (placeholders (codes m.text)) && aligned ls ms)
aligned _ _ = false

part_a : aligned zh_a en_a ≡ true
unfolding aligned zh_a en_a text_eq
part_a = refl

part_b : aligned zh_b en_b ≡ true
unfolding aligned zh_b en_b text_eq
part_b = refl

part_c : aligned zh_c en_c ≡ true
unfolding aligned zh_c en_c text_eq
part_c = refl

part_d : aligned zh_d en_d ≡ true
unfolding aligned zh_d en_d text_eq
part_d = refl

part_e : aligned zh_e en_e ≡ true
unfolding aligned zh_e en_e text_eq
part_e = refl

part_f : aligned zh_f en_f ≡ true
unfolding aligned zh_f en_f text_eq
part_f = refl

part_g : aligned zh_g en_g ≡ true
unfolding aligned zh_g en_g text_eq
part_g = refl

aligned-append :
    (ls ms ns os : List Line)
    → aligned ls ms ≡ true
    → aligned ns os ≡ true
    → aligned (ls ++ ns) (ms ++ os) ≡ true
unfolding aligned
aligned-append [] [] ns os h k = k
aligned-append [] (m ∷ ms) ns os h k = let no : ⊥ = ground (arith, h) in elim no [ ]
aligned-append (l ∷ ls) [] ns os h k = let no : ⊥ = ground (arith, h) in elim no [ ]
aligned-append (l ∷ ls) (m ∷ ms) ns os h k = ground (arith, aligned-append ls ms ns os)

dictionaries-aligned : aligned (dictionaries zh) (dictionaries en) ≡ true
dictionaries-aligned =
    aligned-append _ _ zh_g en_g
      (aligned-append _ _ zh_f en_f
        (aligned-append _ _ zh_e en_e
          (aligned-append _ _ zh_d en_d
            (aligned-append _ _ zh_c en_c (aligned-append _ _ zh_b en_b (part_a) part_b) part_c)
            part_d)
          part_e)
        part_f)
      part_g

-- Neither has an entry, or both have texts with the same placeholders.
abbrev pub is_same_entry : Option Text → Option Text → Bool
is_same_entry none none = true
is_same_entry (some t) (some u) = same_words (placeholders t) (placeholders u)
is_same_entry _ _ = false

find_line-aligned :
    (k : Text) (ls ms : List Line)
    → aligned ls ms ≡ true
    → is_same_entry (find_line k ls) (find_line k ms) ≡ true
unfolding aligned find_line
find_line-aligned k [] [] h = refl
find_line-aligned k [] (m ∷ ms) h = let no : ⊥ = ground (arith, h) in elim no [ ]
find_line-aligned k (l ∷ ls) [] h = let no : ⊥ = ground (arith, h) in elim no [ ]
find_line-aligned k (l ∷ ls) (m ∷ ms) h =
    let e : codes l.key ≡ codes m.key =
      (text_eq_iff (codes l.key) (codes m.key)).0 (ground arith) in
    elim (Bool-cases (text_eq (codes l.key) k)) [
      | inl t ↦ rw (sym e, t) (ground arith)
      | inr f ↦ rw (sym e, f) (find_line-aligned k ls ms (ground arith))
    ]

-- A key has a text in both languages or in neither, and the two texts name the same placeholders:
-- what a caller fills in is shown in either language.
pub translate-parity : (key : Text) → is_same_entry (translate zh key) (translate en key) ≡ true
unfolding translate
translate-parity key =
    find_line-aligned key (dictionaries zh) (dictionaries en) dictionaries-aligned
