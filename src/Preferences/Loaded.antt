-- ===== src/Preferences/Loaded.antt =====
-- From the moment that the store is loaded: what the document shows, and whether the theme is that of
-- the preference.
use notes_of_ashen.Base.{
  ℕ, ◌+◌, ◌==◌, ◌++◌, filter, ap, ap₂, Option, Text, [], List, ◌∷◌, none, some, Bool, true, false,
  not, ◌||◌, ◌≡◌, ◌≢◌, ◌⊎◌, inl, inr, refl, arith, Bool-cases,
}
use notes_of_ashen.Storage.{Backend}
use notes_of_ashen.Preferences.{
  set_language, set_theme_preference, set_theme_style, set_accent_color, sync_system_theme,
  clean_up, is_system, State, Page, toggle_language, toggle_theme, reset_accent_color,
  show_preferences, notify, load_preferences, read_stored, initialize_preferences, with_system,
  listeners_of,
}
use notes_of_ashen.Preferences.Display.{PreferenceState}
use notes_of_ashen.Preferences.Current.{
  IsCurrent, effective_same, language-IsCurrent, theme-IsCurrent, style-IsCurrent, color-IsCurrent,
  initialize-IsCurrent, clean_up-IsCurrent, heard-IsCurrent,
}
use notes_of_ashen.Preferences.Laws.{
  Mounts, mounts_after, PreferenceEvent, language_set, theme_set, style_set, accent_set,
  language_toggled, theme_toggled, accent_reset, mounted, unmounted, system_changed, is_empty,
  ShowsStore, step, steps, is_heard, all_heard, show_Shows, steps-ShowsStore,
}

abbrev next_of : {b : Backend} → Option (Page b) → ℕ
next_of none = 0
next_of (some p) = p.next_listener

heard_or_empty :
    (t : Bool) (ls : List ℕ) → (not t || not (is_empty ls)) ≡ true → (t ≡ false) ⊎ (ls ≢ [])
heard_or_empty false ls h = inl refl
heard_or_empty true [] h = let no : ⊥ = ground (arith, h) in elim no [ ]
heard_or_empty true (l ∷ ls) h = inr (λ e. cc)

module _ (contrasting : Text → Text) where
  module _ {b : Backend} where
    -- The handlers on the page are those that the events call for.
    Matches : State b → Mounts → Type 0
    Matches s m = (listeners_of s.1 ≡ m.active) × (next_of s.1 ≡ m.next)

    sync_Matches :
        (s : State b) (m : Mounts) → Matches s m → Matches (sync_system_theme contrasting s) m
    unfolding Matches sync_system_theme
    sync_Matches (s, none) m h = elim (Bool-cases (is_system s.theme_preference)) [
      | inl e ↦ rw e h
      | inr e ↦ rw e h
    ]
    sync_Matches (s, some p) m h = elim (Bool-cases (is_system s.theme_preference)) [
      | inl e ↦ rw e h
      | inr e ↦ rw e h
    ]

    notify-Matches :
        (ls : List ℕ) (s : State b) (m : Mounts) → Matches s m → Matches (notify contrasting ls s) m
    unfolding notify
    notify-Matches [] s m h = h
    notify-Matches (l ∷ ls) s m h =
        notify-Matches ls (sync_system_theme contrasting s) m (sync_Matches s m h)

    step-Matches :
        (e : PreferenceEvent) (s : PreferenceState) (p : Page b) (m : Mounts)
        → Matches (s, some p) m
        → Matches (step contrasting e (s, some p)) (mounts_after e m)
    unfolding Matches step mounts_after toggle_language toggle_theme reset_accent_color set_language
        set_theme_preference set_theme_style set_accent_color initialize_preferences
        show_preferences clean_up with_system
    step-Matches (language_set l) s p m h = h
    step-Matches (theme_set t) s p m h = h
    step-Matches (style_set v) s p m h = h
    step-Matches (accent_set a) s p m h = h
    step-Matches language_toggled s p m h = h
    step-Matches theme_toggled s p m h = h
    step-Matches accent_reset s p m h = h
    step-Matches mounted s p m h = (ap₂ (λ ls n. ls ++ n ∷ []) h.0 h.1, ap (λ n. n + 1) h.1)
    step-Matches (unmounted n) s p m h = (ap (filter (λ l. not (l == n))) h.0, h.1)
    step-Matches (system_changed is_dark) s p m h = notify-Matches p.listeners _ m h

    changed-IsCurrent :
        (is_dark : Bool) (s : State b) (m : Mounts)
        → Matches s m
        → is_heard contrasting (system_changed is_dark) m s ≡ true
        → IsCurrent contrasting s
        → IsCurrent contrasting (step contrasting (system_changed is_dark) s)
    unfolding IsCurrent is_heard step with_system Matches
    changed-IsCurrent is_dark (s, none) m k e h = elim h [ ]
    changed-IsCurrent is_dark (s, some p) m k e h =
        heard-IsCurrent contrasting s p (record p { prefers_dark = is_dark }) p.listeners h
          (heard_or_empty (is_system s.theme_preference) p.listeners (rw k.0 e))

    step-IsCurrent :
        (e : PreferenceEvent) (s : State b) (m : Mounts)
        → Matches s m
        → is_heard contrasting e m s ≡ true
        → IsCurrent contrasting s
        → IsCurrent contrasting (step contrasting e s)
    unfolding step toggle_language toggle_theme reset_accent_color
    step-IsCurrent (language_set l) s m j k h = language-IsCurrent contrasting l s h
    step-IsCurrent (theme_set t) s m j k h = theme-IsCurrent contrasting t s h
    step-IsCurrent (style_set v) s m j k h = style-IsCurrent contrasting v s h
    step-IsCurrent (accent_set a) s m j k h = color-IsCurrent contrasting a s h
    step-IsCurrent language_toggled s m j k h = language-IsCurrent contrasting _ s h
    step-IsCurrent theme_toggled s m j k h = theme-IsCurrent contrasting _ s h
    step-IsCurrent accent_reset s m j k h = color-IsCurrent contrasting [] s h
    step-IsCurrent mounted s m j k h = initialize-IsCurrent contrasting s h
    step-IsCurrent (unmounted n) s m j k h = clean_up-IsCurrent contrasting n s h
    step-IsCurrent (system_changed is_dark) s m j k h = changed-IsCurrent is_dark s m j k h

    steps-IsCurrent :
        (es : List PreferenceEvent) (s : State b) (m : Mounts)
        → Matches s m
        → all_heard contrasting es m s ≡ true
        → IsCurrent contrasting s
        → IsCurrent contrasting (steps contrasting es s)
    unfolding steps all_heard IsCurrent
    steps-IsCurrent [] s m j k h = h
    steps-IsCurrent (e ∷ es) (s, none) m j k h = elim h [ ]
    steps-IsCurrent (e ∷ es) (s, some p) m j k h =
        steps-IsCurrent es (step contrasting e (s, some p)) (mounts_after e m)
          (step-Matches e s p m j) (ground (arith, k))
          (step-IsCurrent e (s, some p) m j (ground (arith, k)) h)

    load_Matches :
        (p : Page b)
        → Matches
            (load_preferences contrasting (some p))
            (record { active = p.listeners; next = p.next_listener })
    unfolding Matches load_preferences read_stored show_preferences
    load_Matches p = (refl, refl)

    load-ShowsStore : (p : Page b) → ShowsStore contrasting (load_preferences contrasting (some p))
    unfolding load_preferences read_stored
    load-ShowsStore p = show_Shows contrasting _ _

    pub load-IsCurrent :
        (p : Page b) → IsCurrent contrasting (load_preferences contrasting (some p))
    unfolding IsCurrent load_preferences read_stored show_preferences
    load-IsCurrent p = effective_same _ _ _ refl

    -- From the moment that the store is loaded, after any events, the document shows the language,
    -- the theme, the style and the accent of the store. The theme is that of the preference as well,
    -- unless the system's theme has changed, while it was the preference, at a time when every call of
    -- `initializePreferences` had been cleaned up and no handler was there before.
    pub steps-load_preferences :
        (es : List PreferenceEvent) (p : Page b)
        → let s = load_preferences contrasting (some p) in
          let m : Mounts = record { active = p.listeners; next = p.next_listener } in
          ShowsStore contrasting (steps contrasting es s)
          × ((all_heard contrasting es m s ≡ false)
              ⊎ IsCurrent contrasting (steps contrasting es s))
    steps-load_preferences es p =
        let s = load_preferences contrasting (some p) in
        let m : Mounts = record { active = p.listeners; next = p.next_listener } in
        (
          steps-ShowsStore contrasting es s (load-ShowsStore p),
          elim (Bool-cases (all_heard contrasting es m s)) [
            | inl h ↦ inr (steps-IsCurrent es s m (load_Matches p) h (load-IsCurrent p))
            | inr h ↦ inl h
          ],
        )
