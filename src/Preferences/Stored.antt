-- ===== src/Preferences/Stored.antt =====
-- What the store reads when the page is loaded, from a browser's storage that can be read.
use notes_of_ashen.Base.{Text, Option, none, some, true, false, ◌≡◌, ◌≢◌, ◌∙◌, refl, ap, inl, inr}
use notes_of_ashen.Storage.{done, threw, Attempt-cases, Backend, SafeStorage, get_item}
use notes_of_ashen.Preferences.{load_preferences, show_preferences, Page, read_stored}
use notes_of_ashen.Preferences.Styles.{resolve_theme_style}
use notes_of_ashen.Preferences.Display.{
  language_key, theme_key, accent_key, style_key, language_from, preference_from, accent_from,
}

-- The browser's storage is there, and a read of it does not throw.
abbrev pub IsReadable : (b : Backend) → b.State → Type 0
IsReadable b st = (b.resolve st ≡ done true) × ((k : Text) → b.get_item k st ≢ threw)

done_read :
    (b : Backend) (k : Text) (st : b.State)
    → IsReadable b st
    → (v : Option Text) × (b.get_item k st ≡ done v)
done_read b k st h = elim (Attempt-cases (b.get_item k st)) [ inl e ↦ absurd (h.1 k e) | inr r ↦ r ]

module _ {b : Backend} where
  -- What a read from a storage that has not failed gives, and that it is still so afterwards.
  record Reads (s : SafeStorage b) (v : Option Text) (r : Option Text × SafeStorage b)
      : Type 0 where
    value : r.0 ≡ v
    same_store : r.1.store ≡ s.store
    no_failure : r.1.unavailable ≡ false

  read-Reads :
      (k : Text) (s : SafeStorage b) (v : Option Text)
      → s.unavailable ≡ false
      → b.resolve s.store ≡ done true
      → b.get_item k s.store ≡ done v
      → Reads s v (get_item b k s)
  unfolding get_item
  read-Reads k s none h e g =
      rw (h, e, g) (record { value = refl; same_store = refl; no_failure = refl })
  read-Reads k s (some t) h e g =
      rw (h, e, g) (record { value = refl; same_store = refl; no_failure = refl })

  -- The storage `s` has not failed, and stands on `st`.
  abbrev pub Stands : SafeStorage b → b.State → Type 0
  Stands s st = (s.store ≡ st) × (s.unavailable ≡ false)

  read_value :
      (k : Text) (s : SafeStorage b) (st : b.State) (v : Option Text)
      → Stands s st
      → IsReadable b st
      → b.get_item k st ≡ done v
      → Reads s v (get_item b k s)
  read_value k s st v h r g =
      read-Reads k s v h.1 (ap b.resolve h.0 ∙ r.0) (ap (b.get_item k) h.0 ∙ g)

  read_any :
      (k : Text) (s : SafeStorage b) (st : b.State)
      → Stands s st
      → IsReadable b st
      → Stands (get_item b k s).1 st
  read_any k s st h r =
      let (v, e) = done_read b k st r in
      let one = read_value k s st v h r e in (one.same_store ∙ h.0, one.no_failure)

  -- What is loaded from a storage that can be read is what the keys stand for in it.
  load_stored :
      (contrasting : Text → Text) (p : Page b)
      → (l t a y : Option Text) → Stands p.storage p.storage.store
      → IsReadable b p.storage.store
      → b.get_item language_key p.storage.store ≡ done l
      → b.get_item theme_key p.storage.store ≡ done t
      → b.get_item accent_key p.storage.store ≡ done a
      → b.get_item style_key p.storage.store ≡ done y
      → let s = (load_preferences contrasting (some p)).0 in
        (s.language ≡ language_from l)
        × (s.theme_preference ≡ preference_from t)
        × (s.theme_style ≡ resolve_theme_style y)
        × (s.accent_color ≡ accent_from a)
  unfolding load_preferences read_stored show_preferences
  load_stored contrasting p l t a y h r hl ht ha hy =
      let st = p.storage.store in
      let s1 = (get_item b language_key p.storage).1 in
      let h1 = read_any language_key p.storage st h r in
      let s2 = (get_item b theme_key s1).1 in
      let h2 = read_any theme_key s1 st h1 r in
      let s3 = (get_item b accent_key s2).1 in
      let h3 = read_any accent_key s2 st h2 r in
      (
        ap language_from (read_value language_key p.storage st l h r hl).value,
        ap preference_from (read_value theme_key s1 st t h1 r ht).value,
        ap resolve_theme_style (read_value style_key s3 st y h3 r hy).value,
        ap accent_from (read_value accent_key s2 st a h2 r ha).value,
      )

  pub load_language :
      (contrasting : Text → Text) (p : Page b) (v : Option Text)
      → Stands p.storage p.storage.store
      → IsReadable b p.storage.store
      → b.get_item language_key p.storage.store ≡ done v
      → (load_preferences contrasting (some p)).0.language ≡ language_from v
  load_language contrasting p v h r e =
      let st = p.storage.store in
      let (t, ht) = done_read b theme_key st r in
      let (a, ha) = done_read b accent_key st r in
      let (y, hy) = done_read b style_key st r in
      (load_stored contrasting p v t a y h r e ht ha hy).0

  pub load_theme :
      (contrasting : Text → Text) (p : Page b) (v : Option Text)
      → Stands p.storage p.storage.store
      → IsReadable b p.storage.store
      → b.get_item theme_key p.storage.store ≡ done v
      → (load_preferences contrasting (some p)).0.theme_preference ≡ preference_from v
  load_theme contrasting p v h r e =
      let st = p.storage.store in
      let (l, hl) = done_read b language_key st r in
      let (a, ha) = done_read b accent_key st r in
      let (y, hy) = done_read b style_key st r in
      (load_stored contrasting p l v a y h r hl e ha hy).1

  pub load_style :
      (contrasting : Text → Text) (p : Page b) (v : Option Text)
      → Stands p.storage p.storage.store
      → IsReadable b p.storage.store
      → b.get_item style_key p.storage.store ≡ done v
      → (load_preferences contrasting (some p)).0.theme_style ≡ resolve_theme_style v
  load_style contrasting p v h r e =
      let st = p.storage.store in
      let (l, hl) = done_read b language_key st r in
      let (t, ht) = done_read b theme_key st r in
      let (a, ha) = done_read b accent_key st r in
      (load_stored contrasting p l t a v h r hl ht ha e).2

  pub load_accent :
      (contrasting : Text → Text) (p : Page b) (v : Option Text)
      → Stands p.storage p.storage.store
      → IsReadable b p.storage.store
      → b.get_item accent_key p.storage.store ≡ done v
      → (load_preferences contrasting (some p)).0.accent_color ≡ accent_from v
  load_accent contrasting p v h r e =
      let st = p.storage.store in
      let (l, hl) = done_read b language_key st r in
      let (t, ht) = done_read b theme_key st r in
      let (y, hy) = done_read b style_key st r in
      (load_stored contrasting p l t v y h r hl ht e hy).3
