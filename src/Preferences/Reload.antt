-- ===== src/Preferences/Reload.antt =====
-- What a visitor chose is what the store starts with when the page is loaded again.
use notes_of_ashen.Base.{
  Text, [], ◌∷◌, text_eq, truthy, Option, none, some, Bool, true, false, ◌≡◌, ◌≢◌, ◌⊎◌, ◌∙◌, refl,
  ap, arith, if◌then◌else◌, Bool-cases, inl, inr,
}
use notes_of_ashen.Storage.{done, threw, Backend, SafeStorage, set_item, remove_item}
use notes_of_ashen.Storage.Laws.{IsFaithful}
use notes_of_ashen.Errors.Locale.{Language, zh, en}
use notes_of_ashen.Preferences.{
  load_preferences, State, Page, set_language, set_theme_preference, set_theme_style,
  set_accent_color,
}
use notes_of_ashen.Preferences.Color.{is_hex_color}
use notes_of_ashen.Preferences.Styles.{
  style_text, resolve_theme_style, resolve_theme_style-style_text,
}
use notes_of_ashen.Preferences.Display.{
  ThemePreference, system, light, dark, language_text, preference_text, language_key, theme_key,
  accent_key, style_key, Document, language_from, preference_from, accent_from, PreferenceState,
}
use notes_of_ashen.Preferences.Stored.{
  IsReadable, load_language, load_theme, load_style, load_accent,
}

language_from-language_text : (l : Language) → language_from (some (language_text l)) ≡ l
unfolding language_from text_eq
language_from-language_text zh = refl
language_from-language_text en = refl

preference_from-preference_text :
    (t : ThemePreference) → preference_from (some (preference_text t)) ≡ t
unfolding preference_from text_eq
preference_from-preference_text system = refl
preference_from-preference_text light = refl
preference_from-preference_text dark = refl

normalized :
    (accent : Text)
    → let t = if is_hex_color accent then accent else [] in (t ≡ []) ⊎ (is_hex_color t ≡ true)
normalized accent = elim (Bool-cases (is_hex_color accent)) [
  | inl h ↦ inr (rw (h, h))
  | inr h ↦ inl (rw h)
]

-- A choice of the visitor, and the text that stands for what the store holds of it.
pub data Choice : Type 0 where
  language_chosen : Language → Choice
  theme_chosen : ThemePreference → Choice
  style_chosen accent_chosen : Text → Choice

abbrev pub chosen : Choice → PreferenceState → Text
chosen (language_chosen l) s = language_text s.language
chosen (theme_chosen t) s = preference_text s.theme_preference
chosen (style_chosen v) s = style_text s.theme_style
chosen (accent_chosen a) s = s.accent_color

module _ {b : Backend} where
  -- The page that the same browser loads next: the memory of `createSafeStorage` is empty again.
  unfoldable pub reopened : Document → Bool → Option (Page b) → Option (Page b)
  reopened document is_dark none = none
  reopened document is_dark (some p) = some (record {
    storage = record { memory = []; unavailable = false; store = p.storage.store };
    document = document;
    prefers_dark = is_dark;
    listeners = [];
    next_listener = 0;
  })

  -- No call to the browser's storage has failed on this page, and it can be read.
  abbrev pub IsPersisted : Option (Page b) → Type 0
  IsPersisted none = ⊥
  IsPersisted (some p) = (p.storage.unavailable ≡ false) × IsReadable b p.storage.store

  unfoldable pub choose : (Text → Text) → Choice → State b → State b
  choose contrasting (language_chosen l) s = set_language l s
  choose contrasting (theme_chosen t) s = set_theme_preference contrasting t s
  choose contrasting (style_chosen v) s = set_theme_style contrasting v s
  choose contrasting (accent_chosen a) s = set_accent_color contrasting a s

module _ {b : Backend} (law : IsFaithful b) where
  -- A write that did not fail is in the browser's storage.
  set_written :
      (k v : Text) (s : SafeStorage b)
      → b.resolve s.store ≡ done true
      → (set_item b k v s).unavailable ≡ false
      → b.get_item k (set_item b k v s).store ≢ threw
      → b.get_item k (set_item b k v s).store ≡ done (some v)
  unfolding set_item
  set_written k v s e h ne = ground (arith, law.read_set k v s.store)

  remove_written :
      (k : Text) (s : SafeStorage b)
      → b.resolve s.store ≡ done true
      → (remove_item b k s).unavailable ≡ false
      → b.get_item k (remove_item b k s).store ≢ threw
      → b.get_item k (remove_item b k s).store ≡ done none
  unfolding remove_item
  remove_written k s e h ne = ground (arith, law.read_remove k s.store)

  accent_written :
      (t : Text) (s : SafeStorage b)
      → (t ≡ []) ⊎ (is_hex_color t ≡ true)
      → b.resolve s.store ≡ done true
      → let change : SafeStorage b → SafeStorage b =
          if truthy t then set_item b accent_key t else remove_item b accent_key in
        (change s).unavailable ≡ false
        → b.get_item accent_key (change s).store ≢ threw
        → (v : Option Text) × (b.get_item accent_key (change s).store ≡ done v)
          × (accent_from v ≡ t)
  unfolding accent_from
  accent_written [] s n e h ne = (none, remove_written accent_key s e h ne, refl)
  accent_written (c ∷ t) s (inl n) e h ne = let no : ⊥ = cc in elim no [ ]
  accent_written (c ∷ t) s (inr n) e h ne =
      (some (c ∷ t), set_written accent_key (c ∷ t) s e h ne, rw n refl)

  module _ (contrasting : Text → Text) where
    -- What the visitor chose is on the browser's storage, if no call to it has failed and it can be
    -- read: the next page that is loaded starts with it, whatever its document is and whatever theme
    -- the system has by then. An accent that is no colour is loaded as none.
    pub load_preferences-choose :
        (c : Choice) (s : PreferenceState) (p : Page b) (document : Document) (is_dark : Bool)
        → b.resolve p.storage.store ≡ done true
        → IsPersisted (choose contrasting c (s, some p)).1
        → let after = choose contrasting c (s, some p) in
          chosen c (load_preferences contrasting (reopened document is_dark after.1)).0
          ≡ chosen c after.0
    unfolding choose reopened set_language set_theme_preference set_theme_style set_accent_color
    load_preferences-choose (language_chosen l) s p document is_dark e (h, r) = ap language_text (
        load_language contrasting _ (some (language_text l)) (refl, refl) r
          (set_written language_key (language_text l) p.storage e h (r.1 language_key))
        ∙ language_from-language_text l)
    load_preferences-choose (theme_chosen t) s p document is_dark e (h, r) = ap preference_text (
        load_theme contrasting _ (some (preference_text t)) (refl, refl) r
          (set_written theme_key (preference_text t) p.storage e h (r.1 theme_key))
        ∙ preference_from-preference_text t)
    load_preferences-choose (style_chosen v) s p document is_dark e (h, r) =
        let style = resolve_theme_style (some v) in
        ap style_text (
          load_style contrasting _ (some (style_text style)) (refl, refl) r
            (set_written style_key (style_text style) p.storage e h (r.1 style_key))
          ∙ resolve_theme_style-style_text style)
    load_preferences-choose (accent_chosen a) s p document is_dark e (h, r) =
        let w = accent_written _ p.storage (normalized a) e h (r.1 accent_key) in
        load_accent contrasting _ w.0 (refl, refl) r w.1 ∙ w.2
