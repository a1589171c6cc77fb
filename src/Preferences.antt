-- ===== src/Preferences.antt =====
-- frontend/src/store/preferences.ts: language, theme, style and accent of a visitor. `Page` is what
-- the store reads and writes of the browser; there is none where the code does not run in one.
-- `getContrastingTextColor` of frontend/src/utils/color.ts, which computes in floating point, is the
-- argument `contrasting`.
pub mod Color
pub mod Styles
pub mod Display
pub mod Shown
pub mod Current
pub mod Stored
pub mod Reload
pub mod Laws
pub mod Loaded
pub mod Late
mod Tests
use notes_of_ashen.Base.{
  ℕ, ◌+◌, ◌==◌, ◌++◌, filter, not, List, ◌∷◌, Text, codes, [], text_eq, truthy, or_text, Option,
  none, some, get_or, Bool, true, false, ◌||◌, if◌then◌else◌,
}
use notes_of_ashen.Storage.{Backend, SafeStorage, get_item, set_item, remove_item}
use notes_of_ashen.Errors.Locale.{Language, zh, en}
use Color.{is_hex_color}
use Styles.{style_text, resolve_theme_style}
use Display.{
  ThemePreference, system, light, dark, EffectiveTheme, light_theme, dark_theme, is_dark_theme,
  language_text, preference_text, Document, PreferenceState, language_key, theme_key, accent_key,
  style_key, language_from, preference_from, accent_from, document_with_language,
  document_with_theme, document_with_style, document_with_accent,
}

-- `prefers_dark`: matchMedia('(prefers-color-scheme: dark)').matches. `listeners` are the handlers of
-- its event `change`, each with a number of its own; `next_listener` is the number of the next.
pub record Page (b : Backend) : Type 0 where
  pub storage : SafeStorage b
  pub document : Document
  pub prefers_dark : Bool
  pub listeners : List ℕ
  pub next_listener : ℕ

abbrev pub State : Backend → Type 0
State b = PreferenceState × Option (Page b)

abbrev pub is_system : ThemePreference → Bool
is_system system = true
is_system light = false
is_system dark = false

module _ {b : Backend} where
  -- `if (!isBrowser()) return;`
  abbrev pub on_document : (Document → Document) → Option (Page b) → Option (Page b)
  on_document f none = none
  on_document f (some p) = some (record p { document = f p.document })

  abbrev pub on_storage : (SafeStorage b → SafeStorage b) → Option (Page b) → Option (Page b)
  on_storage f none = none
  on_storage f (some p) = some (record p { storage = f p.storage })

  unfoldable pub get_system_theme : Option (Page b) → EffectiveTheme
  get_system_theme none = light_theme
  get_system_theme (some p) = if p.prefers_dark then dark_theme else light_theme

  unfoldable pub resolve_effective_theme : ThemePreference → Option (Page b) → EffectiveTheme
  unfolding get_system_theme
  resolve_effective_theme system page = get_system_theme page
  resolve_effective_theme light page = light_theme
  resolve_effective_theme dark page = dark_theme

  -- safeLocalStorage.getItem(key), and none outside a browser
  unfoldable pub read_stored : Text → Option (Page b) → Option Text × Option (Page b)
  read_stored key none = (none, none)
  read_stored key (some p) =
      let (v, storage) = get_item b key p.storage in (v, some (record p { storage = storage }))

  unfoldable pub set_language : Language → State b → State b
  unfolding document_with_language
  set_language language (s, page) = (
    record s { language = language },
    on_document (document_with_language language)
        (on_storage (set_item b language_key (language_text language)) page),
  )

  unfoldable pub toggle_language : State b → State b
  unfolding set_language
  toggle_language (s, page) = set_language (elim s.language [ zh ↦ en | en ↦ zh ]) (s, page)

-- The cleanup that `initializePreferences` returns.
unfoldable pub clean_up : {b : Backend} → Option ℕ → State b → State b
clean_up (some n) (s, some p) =
    (s, some (record p { listeners = filter (λ l. not (l == n)) p.listeners }))
clean_up _ s = s

-- The page when the system's theme has changed, before a handler is called.
unfoldable pub with_system : {b : Backend} → Bool → Option (Page b) → Option (Page b)
with_system is_dark none = none
with_system is_dark (some p) = some (record p { prefers_dark = is_dark })

abbrev pub listeners_of : {b : Backend} → Option (Page b) → List ℕ
listeners_of none = []
listeners_of (some p) = p.listeners

module _ {b : Backend} (contrasting : Text → Text) where
  unfoldable pub set_theme_preference : ThemePreference → State b → State b
  unfolding document_with_theme document_with_accent resolve_effective_theme
  set_theme_preference preference (s, page) =
      let page1 = on_storage (set_item b theme_key (preference_text preference)) page in
      let effective = resolve_effective_theme preference page1 in
      (
        record s { theme_preference = preference; effective_theme = effective },
        on_document (document_with_accent contrasting s.accent_color s.theme_style)
            (on_document (document_with_theme effective) page1),
      )

  -- `value` is the text that the caller passes for a style.
  unfoldable pub set_theme_style : Text → State b → State b
  unfolding document_with_style document_with_accent
  set_theme_style value (s, page) =
      let style = resolve_theme_style (some value) in
      (
        record s { theme_style = style },
        on_document (document_with_accent contrasting s.accent_color style) (
            on_document (document_with_style style)
              (on_storage (set_item b style_key (style_text style)) page)),
      )

  unfoldable pub set_accent_color : Text → State b → State b
  unfolding document_with_accent
  set_accent_color accent (s, page) =
      let normalized = if is_hex_color accent then accent else [] in
      let store : SafeStorage b → SafeStorage b =
        if truthy normalized then set_item b accent_key normalized else remove_item b accent_key in
      (
        record s { accent_color = normalized },
        on_document (document_with_accent contrasting normalized s.theme_style)
            (on_storage store page),
      )

  unfoldable pub reset_accent_color : State b → State b
  unfolding set_accent_color
  reset_accent_color s = set_accent_color [] s

  unfoldable pub toggle_theme : State b → State b
  unfolding set_theme_preference
  toggle_theme (s, page) =
      set_theme_preference (if is_dark_theme s.effective_theme then light else dark) (s, page)

  unfoldable pub sync_system_theme : State b → State b
  unfolding document_with_theme document_with_accent get_system_theme
  sync_system_theme (s, page) =
      let effective = get_system_theme page in
      if is_system s.theme_preference
      then (
        record s { effective_theme = effective },
        on_document (document_with_accent contrasting s.accent_color s.theme_style)
            (on_document (document_with_theme effective) page),
      )
      else (s, page)

  -- The event `change` of the media query: each handler is called.
  unfoldable pub notify : List ℕ → State b → State b
  unfolding sync_system_theme
  notify [] s = s
  notify (l ∷ ls) s = notify ls (sync_system_theme s)

  -- The four calls that write the preferences to the document: when the module is loaded, and when
  -- `initializePreferences` starts.
  unfoldable pub show_preferences : State b → State b
  unfolding document_with_language document_with_theme document_with_style document_with_accent
  show_preferences (s, page) = (
    s,
    on_document (document_with_accent contrasting s.accent_color s.theme_style) (
        on_document (document_with_style s.theme_style) (
          on_document (document_with_theme s.effective_theme)
            (on_document (document_with_language s.language) page))),
  )

  -- initializePreferences: the state, and the handler that the cleanup removes, where there is one.
  unfoldable pub initialize_preferences : State b → State b × Option ℕ
  unfolding show_preferences
  initialize_preferences (s, none) = (show_preferences (s, none), none)
  initialize_preferences (s, some p) =
      let n = p.next_listener in
      (
        show_preferences
            (s, some (record p { listeners = p.listeners ++ n ∷ []; next_listener = n + 1 })),
        some n,
      )

  -- What the module does when it is loaded.
  unfoldable pub load_preferences : Option (Page b) → State b
  unfolding read_stored resolve_effective_theme show_preferences
  load_preferences page =
      let (language, page1) = read_stored language_key page in
      let (theme, page2) = read_stored theme_key page1 in
      let effective = resolve_effective_theme (preference_from theme) page2 in
      let (accent, page3) = read_stored accent_key page2 in
      let (style, page4) = read_stored style_key page3 in
      show_preferences (
        record {
          language = language_from language;
          theme_preference = preference_from theme;
          effective_theme = effective;
          theme_style = resolve_theme_style style;
          accent_color = accent_from accent;
        },
        page4,
      )
