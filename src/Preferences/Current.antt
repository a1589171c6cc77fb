-- ===== src/Preferences/Current.antt =====
-- Which operations leave the theme the one that the preference gives.
use notes_of_ashen.Base.{
  ℕ, Text, [], List, ◌∷◌, none, some, true, false, ◌≡◌, ◌≢◌, ◌∙◌, ◌⊎◌, inl, inr, refl, Bool-cases,
}
use notes_of_ashen.Storage.{Backend, set_item}
use notes_of_ashen.Errors.Locale.{Language}
use notes_of_ashen.Preferences.{
  is_system, State, Page, set_language, set_theme_preference, set_theme_style, set_accent_color,
  sync_system_theme, show_preferences, notify, resolve_effective_theme, get_system_theme,
  initialize_preferences, clean_up,
}
use notes_of_ashen.Preferences.Display.{
  theme_key, preference_text, ThemePreference, system, light, dark, PreferenceState,
}

pub effective_same :
    {b : Backend} (t : ThemePreference) (p q : Page b)
    → p.prefers_dark ≡ q.prefers_dark
    → resolve_effective_theme t (some p) ≡ resolve_effective_theme t (some q)
unfolding resolve_effective_theme get_system_theme
effective_same system p q h = rw h
effective_same light p q h = refl
effective_same dark p q h = refl

-- A preference that is not the system's takes no notice of the system.
effective_fixed :
    {b : Backend} (t : ThemePreference) (p q : Page b)
    → is_system t ≡ false
    → resolve_effective_theme t (some p) ≡ resolve_effective_theme t (some q)
unfolding resolve_effective_theme
effective_fixed system p q h = let no : ⊥ = cc in elim no [ ]
effective_fixed light p q h = refl
effective_fixed dark p q h = refl

system_effective :
    {b : Backend} (t : ThemePreference) (q : Page b)
    → is_system t ≡ true
    → get_system_theme (some q) ≡ resolve_effective_theme t (some q)
unfolding resolve_effective_theme
system_effective system q h = refl
system_effective light q h = let no : ⊥ = cc in elim no [ ]
system_effective dark q h = let no : ⊥ = cc in elim no [ ]

module _ (contrasting : Text → Text) where
  module _ {b : Backend} where
    -- There is a page, and the theme is the one that the preference gives on it.
    unfoldable pub IsCurrent : State b → Type 0
    IsCurrent (s, none) = ⊥
    IsCurrent (s, some p) = s.effective_theme ≡ resolve_effective_theme s.theme_preference (some p)

    pub language-IsCurrent :
        (l : Language) (s : State b) → IsCurrent s → IsCurrent (set_language l s)
    unfolding IsCurrent set_language
    language-IsCurrent l (s, none) h = h
    language-IsCurrent l (s, some p) h = h ∙ effective_same s.theme_preference p _ refl

    pub theme-IsCurrent :
        (t : ThemePreference) (s : State b)
        → IsCurrent s
        → IsCurrent (set_theme_preference contrasting t s)
    unfolding IsCurrent set_theme_preference
    theme-IsCurrent t (s, none) h = h
    theme-IsCurrent t (s, some p) h =
        let q : Page b = record p {
          storage = set_item b theme_key (preference_text t) p.storage;
        } in
        effective_same t q _ refl

    pub style-IsCurrent :
        (v : Text) (s : State b) → IsCurrent s → IsCurrent (set_theme_style contrasting v s)
    unfolding IsCurrent set_theme_style
    style-IsCurrent v (s, none) h = h
    style-IsCurrent v (s, some p) h = h ∙ effective_same s.theme_preference p _ refl

    pub color-IsCurrent :
        (a : Text) (s : State b) → IsCurrent s → IsCurrent (set_accent_color contrasting a s)
    unfolding IsCurrent set_accent_color
    color-IsCurrent a (s, none) h = h
    color-IsCurrent a (s, some p) h = h ∙ effective_same s.theme_preference p _ refl

    pub initialize-IsCurrent :
        (s : State b) → IsCurrent s → IsCurrent (initialize_preferences contrasting s).0
    unfolding IsCurrent initialize_preferences show_preferences
    initialize-IsCurrent (s, none) h = h
    initialize-IsCurrent (s, some p) h = h ∙ effective_same s.theme_preference p _ refl

    pub clean_up-IsCurrent : (n : ℕ) (s : State b) → IsCurrent s → IsCurrent (clean_up (some n) s)
    unfolding IsCurrent clean_up
    clean_up-IsCurrent n (s, none) h = h
    clean_up-IsCurrent n (s, some p) h = h ∙ effective_same s.theme_preference p _ refl

    -- A handler takes the system's theme where that is the preference.
    sync-IsCurrent :
        (s : PreferenceState) (q : Page b)
        → (is_system s.theme_preference ≡ false → IsCurrent (s, some q))
        → IsCurrent (sync_system_theme contrasting (s, some q))
    unfolding IsCurrent sync_system_theme
    sync-IsCurrent s q h = elim (Bool-cases (is_system s.theme_preference)) [
      | inl e ↦
          rw e
            (system_effective s.theme_preference q e ∙ effective_same s.theme_preference q _ refl)
      | inr e ↦ rw e (h e)
    ]

    notify-IsCurrent :
        (ls : List ℕ) (s : State b) → IsCurrent s → IsCurrent (notify contrasting ls s)
    unfolding IsCurrent notify
    notify-IsCurrent [] s h = h
    notify-IsCurrent (l ∷ ls) (s, none) h = elim h [ ]
    notify-IsCurrent (l ∷ ls) (s, some q) h =
        notify-IsCurrent ls (sync_system_theme contrasting (s, some q))
          (sync-IsCurrent s q (λ e. h))

    -- The change of the system's theme on `p` to that of `q` is heard, or the preference is another.
    pub heard-IsCurrent :
        (s : PreferenceState) (p q : Page b) (ls : List ℕ)
        → IsCurrent (s, some p)
        → (is_system s.theme_preference ≡ false) ⊎ (ls ≢ [])
        → IsCurrent (notify contrasting ls (s, some q))
    unfolding IsCurrent notify
    heard-IsCurrent s p q [] h (inl e) = h ∙ effective_fixed s.theme_preference p q e
    heard-IsCurrent s p q [] h (inr ne) = absurd (ne refl)
    heard-IsCurrent s p q (l ∷ ls) h k =
        notify-IsCurrent ls (sync_system_theme contrasting (s, some q))
          (sync-IsCurrent s q (λ e. h ∙ effective_fixed s.theme_preference p q e))
