-- ===== src/Preferences/Late.antt =====
-- A change of the system's theme that comes before the page listens for it.
use notes_of_ashen.Base.{ℕ, Text, [], List, ◌∷◌, none, some, Bool, ◌≡◌, ◌≢◌, ◌∙◌, sym, refl}
use notes_of_ashen.Storage.{Backend}
use notes_of_ashen.Preferences.{
  State, Page, show_preferences, notify, load_preferences, resolve_effective_theme,
  get_system_theme, read_stored, initialize_preferences, with_system, listeners_of,
}
use notes_of_ashen.Preferences.Display.{ThemePreference, system, light, dark, PreferenceState}
use notes_of_ashen.Preferences.Current.{IsCurrent, effective_same}
use notes_of_ashen.Preferences.Laws.{mounted, system_changed, step, steps}
use notes_of_ashen.Preferences.Loaded.{load-IsCurrent}

module _ (contrasting : Text → Text) where
  module _ {b : Backend} where
    load_listeners :
        (p : Page b)
        → p.listeners ≡ []
        → listeners_of (load_preferences contrasting (some p)).1 ≡ []
    unfolding load_preferences read_stored show_preferences
    load_listeners p e = e

    load_system :
        (p : Page b) (is_dark : Bool)
        → get_system_theme (some p) ≢ get_system_theme (with_system is_dark (some p))
        → let page = (load_preferences contrasting (some p)).1 in
          get_system_theme page ≢ get_system_theme (with_system is_dark page)
    unfolding load_preferences read_stored show_preferences get_system_theme with_system
    load_system p is_dark ne = ne

    flipped :
        (t : ThemePreference) (p q : Page b)
        → t ≡ system
        → get_system_theme (some p) ≢ get_system_theme (some q)
        → resolve_effective_theme t (some p) ≢ resolve_effective_theme t (some q)
    unfolding resolve_effective_theme
    flipped system p q e ne h = ne h
    flipped light p q e ne h = let no : ⊥ = cc in elim no [ ]
    flipped dark p q e ne h = let no : ⊥ = cc in elim no [ ]

    unheard :
        (s : PreferenceState) (p : Page b) (ls : List ℕ) (is_dark : Bool)
        → ls ≡ []
        → s.theme_preference ≡ system
        → get_system_theme (some p) ≢ get_system_theme (with_system is_dark (some p))
        → IsCurrent contrasting (s, some p)
        → ¬ (
            IsCurrent contrasting
              (initialize_preferences contrasting
                (notify contrasting ls (s, with_system is_dark (some p)))).0)
    unfolding IsCurrent notify with_system initialize_preferences show_preferences
    unheard s p [] is_dark e t ne h k =
        let q : Page b = record p { prefers_dark = is_dark } in
        flipped s.theme_preference p q t ne (sym h ∙ k ∙ effective_same s.theme_preference _ q refl)
    unheard s p (l ∷ ls) is_dark e t ne h k = let no : ⊥ = cc in elim no [ ]

    late_state :
        (s : State b) (is_dark : Bool)
        → listeners_of s.1 ≡ []
        → s.0.theme_preference ≡ system
        → get_system_theme s.1 ≢ get_system_theme (with_system is_dark s.1)
        → IsCurrent contrasting s
        → ¬ IsCurrent contrasting (steps contrasting (system_changed is_dark ∷ mounted ∷ []) s)
    unfolding steps step IsCurrent
    late_state (s, none) is_dark e t ne h k = h
    late_state (s, some p) is_dark e t ne h k = unheard s p p.listeners is_dark e t ne h k

    -- A change of the system's theme between the loading of the store and the call of
    -- `initializePreferences` is missed, where the system's theme is the preference: afterwards the
    -- theme of the page is not the one that the system has.
    pub steps-late :
        (p : Page b) (is_dark : Bool)
        → p.listeners ≡ []
        → (load_preferences contrasting (some p)).0.theme_preference ≡ system
        → get_system_theme (some p) ≢ get_system_theme (with_system is_dark (some p))
        → ¬ IsCurrent contrasting (
            steps contrasting
              (system_changed is_dark ∷ mounted ∷ [])
              (load_preferences contrasting (some p)))
    steps-late p is_dark e t ne =
        late_state (load_preferences contrasting (some p)) is_dark (load_listeners p e) t
          (load_system p is_dark ne) (load-IsCurrent contrasting p)
