-- ===== src/Preferences/Laws.antt =====
-- The document shows the preferences after any events, and which changes of the system's theme are
-- missed.
use notes_of_ashen.Base.{
  ℕ, ◌+◌, ◌==◌, filter, ◌++◌, Text, [], List, ◌∷◌, none, some, Bool, true, false, not, ◌||◌, ◌&&◌,
  inl, inr, refl, if◌then◌else◌, Bool-cases,
}
use notes_of_ashen.Storage.{Backend, set_item}
use notes_of_ashen.Errors.Locale.{Language}
use notes_of_ashen.Preferences.{
  is_system, State, Page, set_language, toggle_language, set_theme_preference, toggle_theme,
  set_theme_style, set_accent_color, reset_accent_color, sync_system_theme, show_preferences,
  notify, resolve_effective_theme, get_system_theme, initialize_preferences, clean_up, with_system,
  listeners_of,
}
use notes_of_ashen.Preferences.Color.{is_hex_color}
use notes_of_ashen.Preferences.Styles.{resolve_theme_style}
use notes_of_ashen.Preferences.Display.{
  theme_key, preference_text, ThemePreference, PreferenceState, document_with_language,
  document_with_theme, document_with_style,
}
use notes_of_ashen.Preferences.Shown.{Shows, accent-Shows, language-Shows, language_shown}

-- What happens to the preferences: `mounted` calls `initializePreferences`, `unmounted` the cleanup
-- of the handler with that number, and `system_changed` is the event of the media query.
pub data PreferenceEvent : Type 0 where
  language_set : Language → PreferenceEvent
  theme_set : ThemePreference → PreferenceEvent
  style_set accent_set : Text → PreferenceEvent
  language_toggled theme_toggled accent_reset mounted : PreferenceEvent
  unmounted : ℕ → PreferenceEvent
  system_changed : Bool → PreferenceEvent

abbrev pub is_empty : List ℕ → Bool
is_empty [] = true
is_empty (l ∷ ls) = false

-- The calls of `initializePreferences` that are not cleaned up, by their numbers, and the next number:
-- what the events say of them, whatever the page does.
pub record Mounts : Type 0 where
  pub active : List ℕ
  pub next : ℕ

unfoldable pub mounts_after : PreferenceEvent → Mounts → Mounts
mounts_after mounted m = record { active = m.active ++ m.next ∷ []; next = m.next + 1 }
mounts_after (unmounted n) m = record m { active = filter (λ l. not (l == n)) m.active }
mounts_after _ m = m

module _ (contrasting : Text → Text) where
  module _ {b : Backend} where
    -- There is a document, and it shows the store.
    pub ShowsStore : State b → Type 0
    ShowsStore (s, none) = ⊥
    ShowsStore (s, some p) = Shows contrasting s p.document

    unfoldable pub step : PreferenceEvent → State b → State b
    step (language_set l) s = set_language l s
    step (theme_set t) s = set_theme_preference contrasting t s
    step (style_set v) s = set_theme_style contrasting v s
    step (accent_set a) s = set_accent_color contrasting a s
    step language_toggled s = toggle_language s
    step theme_toggled s = toggle_theme contrasting s
    step accent_reset s = reset_accent_color contrasting s
    step mounted s = (initialize_preferences contrasting s).0
    step (unmounted n) s = clean_up (some n) s
    step (system_changed is_dark) (s, page) =
        notify contrasting (listeners_of page) (s, with_system is_dark page)

    unfoldable pub steps : List PreferenceEvent → State b → State b
    steps [] s = s
    steps (e ∷ es) s = steps es (step e s)

    -- A change of the system's theme comes while a call of `initializePreferences` is not cleaned up,
    -- or the preference is not the system's.
    unfoldable pub is_heard : PreferenceEvent → Mounts → State b → Bool
    is_heard (system_changed is_dark) m (s, page) =
        not (is_system s.theme_preference) || not (is_empty m.active)
    is_heard _ m s = true

    unfoldable pub all_heard : List PreferenceEvent → Mounts → State b → Bool
    all_heard [] m s = true
    all_heard (e ∷ es) m s = is_heard e m s && all_heard es (mounts_after e m) (step e s)

    language_Shows : (l : Language) (s : State b) → ShowsStore s → ShowsStore (set_language l s)
    unfolding ShowsStore set_language
    language_Shows l (s, none) h = h
    language_Shows l (s, some p) h = language-Shows contrasting l s p.document h

    theme_Shows :
        (t : ThemePreference) (s : State b)
        → ShowsStore s
        → ShowsStore (set_theme_preference contrasting t s)
    unfolding ShowsStore set_theme_preference document_with_theme
    theme_Shows t (s, none) h = h
    theme_Shows t (s, some p) k =
        let q : Page b = record p {
          storage = set_item b theme_key (preference_text t) p.storage;
        } in
        let effective = resolve_effective_theme t (some q) in
        accent-Shows contrasting (record s { theme_preference = t; effective_theme = effective })
          (document_with_theme effective p.document) k.lang_shown refl refl k.style_shown

    style_Shows :
        (v : Text) (s : State b) → ShowsStore s → ShowsStore (set_theme_style contrasting v s)
    unfolding ShowsStore set_theme_style document_with_style
    style_Shows v (s, none) h = h
    style_Shows v (s, some p) k =
        let style = resolve_theme_style (some v) in
        accent-Shows contrasting (record s { theme_style = style })
          (document_with_style style p.document) k.lang_shown k.theme_shown k.scheme_shown refl

    color_Shows :
        (a : Text) (s : State b) → ShowsStore s → ShowsStore (set_accent_color contrasting a s)
    unfolding ShowsStore set_accent_color
    color_Shows a (s, none) h = h
    color_Shows a (s, some p) k =
        accent-Shows contrasting (record s { accent_color = if is_hex_color a then a else [] })
          p.document k.lang_shown k.theme_shown k.scheme_shown k.style_shown

    sync_Shows : (s : State b) → ShowsStore s → ShowsStore (sync_system_theme contrasting s)
    unfolding ShowsStore sync_system_theme document_with_theme
    sync_Shows (s, none) h = elim h [ ]
    sync_Shows (s, some p) k =
        let effective = get_system_theme (some p) in
        elim (Bool-cases (is_system s.theme_preference)) [
          | inl e ↦ rw e (
              accent-Shows contrasting (record s { effective_theme = effective })
                (document_with_theme effective p.document) k.lang_shown refl refl k.style_shown)
          | inr e ↦ rw e k
        ]

    notify_Shows : (ls : List ℕ) (s : State b) → ShowsStore s → ShowsStore (notify contrasting ls s)
    unfolding notify
    notify_Shows [] s h = h
    notify_Shows (l ∷ ls) s h = notify_Shows ls (sync_system_theme contrasting s) (sync_Shows s h)

    pub show_Shows :
        (s : PreferenceState) (p : Page b) → ShowsStore (show_preferences contrasting (s, some p))
    unfolding ShowsStore show_preferences document_with_theme document_with_style
    show_Shows s p =
        accent-Shows contrasting s
          (document_with_style s.theme_style
            (document_with_theme s.effective_theme (document_with_language s.language p.document)))
          (language_shown s.language p.document) refl refl refl

    initialize_Shows :
        (s : State b) → ShowsStore s → ShowsStore (initialize_preferences contrasting s).0
    unfolding ShowsStore initialize_preferences
    initialize_Shows (s, none) h = elim h [ ]
    initialize_Shows (s, some p) h = show_Shows s p

    changed_Shows :
        (is_dark : Bool) (s : State b) → ShowsStore s → ShowsStore (step (system_changed is_dark) s)
    unfolding ShowsStore step with_system
    changed_Shows is_dark (s, none) h = elim h [ ]
    changed_Shows is_dark (s, some p) h = notify_Shows p.listeners _ h

    clean_up_Shows : (n : ℕ) (s : State b) → ShowsStore s → ShowsStore (clean_up (some n) s)
    unfolding ShowsStore clean_up
    clean_up_Shows n (s, none) h = h
    clean_up_Shows n (s, some p) h = h

    step-ShowsStore : (e : PreferenceEvent) (s : State b) → ShowsStore s → ShowsStore (step e s)
    unfolding step toggle_language toggle_theme reset_accent_color
    step-ShowsStore (language_set l) s h = language_Shows l s h
    step-ShowsStore (theme_set t) s h = theme_Shows t s h
    step-ShowsStore (style_set v) s h = style_Shows v s h
    step-ShowsStore (accent_set a) s h = color_Shows a s h
    step-ShowsStore language_toggled s h = language_Shows _ s h
    step-ShowsStore theme_toggled s h = theme_Shows _ s h
    step-ShowsStore accent_reset s h = color_Shows [] s h
    step-ShowsStore mounted s h = initialize_Shows s h
    step-ShowsStore (unmounted n) s h = clean_up_Shows n s h
    step-ShowsStore (system_changed is_dark) s h = changed_Shows is_dark s h

    pub steps-ShowsStore :
        (es : List PreferenceEvent) (s : State b) → ShowsStore s → ShowsStore (steps es s)
    unfolding steps
    steps-ShowsStore [] s h = h
    steps-ShowsStore (e ∷ es) s h = steps-ShowsStore es (step e s) (step-ShowsStore e s h)
