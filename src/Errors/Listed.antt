-- ===== src/Errors/Listed.antt =====
-- Every entry of the message tables is reached by its key, in both languages.
use mathlib.Core.List.{Memᴰ}
use notes_of_ashen.Base.{
  or_text, Text, text_eq, text_eq_iff, trim, truthy, Option, none, some, Bool, true, false, ◌≡◌,
  refl, arith, all, ◌&&◌, List, [], ◌∷◌,
}
use notes_of_ashen.Errors.Locale.{Language, zh, en, LocalizedText, in_language, Entry, find_entry}
use notes_of_ashen.Errors.Messages.{own_messages}
use notes_of_ashen.Errors.AiMessages.{ai_exact_error_messages}
use notes_of_ashen.Errors.{translate_message, translate_raw, fallback_text, exact_messages}

found_as : LocalizedText → Option LocalizedText → Bool
found_as t none = false
found_as t (some u) = text_eq u.zh_text t.zh_text && text_eq u.en_text t.en_text

-- The key has no blanks around it and is not empty, its first entry is this one, and its texts are
-- not empty.
reaches : List Entry → Entry → Bool
reaches table e =
    text_eq (trim e.key) e.key
    && truthy e.key
    && truthy e.text.zh_text
    && truthy e.text.en_text
    && found_as e.text (find_entry e.key table)

tables_reach : all (reaches exact_messages) exact_messages ≡ true
unfolding reaches found_as exact_messages own_messages ai_exact_error_messages find_entry text_eq
    trim
tables_reach = refl

-- A test that passes along a list holds of each member.
all-mem {ℓ} :
    {A : Type ℓ} (p : A → Bool) {x : A} (xs : List A) → all p xs ≡ true → Memᴰ x xs → p x ≡ true
all-mem p [] h m = elim m [ ]
all-mem p (y ∷ ys) h (Memᴰ.head e) = rw e (ground arith)
all-mem p (y ∷ ys) h (Memᴰ.tail m) = all-mem p ys (ground arith) m

found_as-eq : (t : LocalizedText) (o : Option LocalizedText) → found_as t o ≡ true → o ≡ some t
unfolding found_as
found_as-eq t (some u) h =
    ground (arith, text_eq_iff u.zh_text t.zh_text, text_eq_iff u.en_text t.en_text)
found_as-eq t none h = cc

reaches_parts :
    (e : Entry)
    → reaches exact_messages e ≡ true
    → (trim e.key ≡ e.key)
      × (truthy e.key ≡ true)
      × (truthy e.text.zh_text ≡ true)
      × (truthy e.text.en_text ≡ true)
      × (find_entry e.key exact_messages ≡ some e.text)
unfolding reaches
reaches_parts e h =
    let found : found_as e.text (find_entry e.key exact_messages) ≡ true = ground arith in
    (
      ground (arith, text_eq_iff (trim e.key) e.key),
      ground arith,
      ground arith,
      ground arith,
      found_as-eq e.text _ found,
    )

or_text-truthy : (s d : Text) → truthy s ≡ true → or_text s d ≡ s
or_text-truthy [] d h = cc
or_text-truthy (c ∷ s) d h = refl

translate_raw-found :
    (l : Language) (t : LocalizedText) (raw fb : Text)
    → truthy raw ≡ true
    → truthy (in_language l t) ≡ true
    → find_entry raw exact_messages ≡ some t
    → translate_raw l fb raw ≡ in_language l t
unfolding translate_raw
translate_raw-found l t [] fb h k e = cc
translate_raw-found l t (c ∷ s) fb h k e = rw e (or_text-truthy (in_language l t) fb k)

in_language-truthy :
    (l : Language) (t : LocalizedText)
    → truthy t.zh_text ≡ true
    → truthy t.en_text ≡ true
    → truthy (in_language l t) ≡ true
in_language-truthy zh t h k = h
in_language-truthy en t h k = k

-- Each message that the tables list is shown by its own text, in either language and whatever the
-- fallback: no entry is shadowed by an earlier one, lost by trimming, or empty.
pub translate_message-listed :
    (e : Entry)
    → Memᴰ e exact_messages
    → (l : Language) (fb : Option Text) → translate_message l (some e.key) fb ≡ in_language l e.text
unfolding translate_message
translate_message-listed e m l fb =
    let h : reaches exact_messages e ≡ true =
      all-mem (reaches exact_messages) exact_messages tables_reach m in
    let (same, full, zh_full, en_full, found) = reaches_parts e h in
    rw same (
      translate_raw-found l e.text e.key (fallback_text l fb) full
        (in_language-truthy l e.text zh_full en_full) found)
