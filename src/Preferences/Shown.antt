-- ===== src/Preferences/Shown.antt =====
-- When a document shows the preferences, and what makes it do so.
use notes_of_ashen.Base.{Text, codes, or_text, Option, none, some, ◌≡◌, ◌⊎◌, inl, inr, refl}
use notes_of_ashen.Errors.Locale.{Language, zh, en}
use notes_of_ashen.Preferences.Display.{
  is_dark_theme, Document, PreferenceState, document_with_language, document_with_accent,
  when_accent, code_background, style_accent,
}

-- The tag of a language in HTML.
abbrev pub language_tag : Language → Text
language_tag zh = codes "zh-CN"
language_tag en = codes "en"

pub language_shown :
    (l : Language) (d : Document) → (document_with_language l d).lang ≡ language_tag l
unfolding document_with_language
language_shown zh d = refl
language_shown en d = refl

module _ (contrasting : Text → Text) where
  -- The document shows the preferences.
  pub record Shows (s : PreferenceState) (d : Document) : Type 0 where
    pub lang_shown : d.lang ≡ language_tag s.language
    pub theme_shown : d.theme ≡ some s.effective_theme
    pub scheme_shown : d.color_scheme ≡ some s.effective_theme
    pub style_shown : d.style ≡ some s.theme_style
    pub ochre_shown : d.ochre ≡ when_accent s.accent_color s.accent_color
    pub text_shown : d.on_accent ≡ when_accent s.accent_color (contrasting s.accent_color)
    pub code_shown :
        d.inline_code_bg
        ≡ when_accent s.accent_color
            (code_background s.accent_color (is_dark_theme s.effective_theme))
    pub code_text_shown : d.code_ochre ≡ when_accent s.accent_color s.accent_color
    pub meta_shown :
        (d.theme_color ≡ none)
        ⊎ (d.theme_color
            ≡ some (
                or_text s.accent_color
                  (style_accent s.theme_style (is_dark_theme s.effective_theme))))

  meta :
      (s : PreferenceState) (d : Document) (t : Option Text)
      → d.theme ≡ some s.effective_theme
      → d.theme_color ≡ t
      → let m = (document_with_accent contrasting s.accent_color s.theme_style d).theme_color in
        (m ≡ none)
        ⊎ (m
            ≡ some (
                or_text s.accent_color
                  (style_accent s.theme_style (is_dark_theme s.effective_theme))))
  unfolding document_with_accent
  meta s d none k h = inl (rw h)
  meta s d (some old) k h = inr (rw (h, k))

  pub accent-Shows :
      (s : PreferenceState) (d : Document)
      → d.lang ≡ language_tag s.language
      → d.theme ≡ some s.effective_theme
      → d.color_scheme ≡ some s.effective_theme
      → d.style ≡ some s.theme_style
      → Shows s (document_with_accent contrasting s.accent_color s.theme_style d)
  unfolding document_with_accent
  accent-Shows s d h k l m = record {
    lang_shown = h;
    theme_shown = k;
    scheme_shown = l;
    style_shown = m;
    ochre_shown = refl;
    text_shown = refl;
    code_shown = rw k;
    code_text_shown = refl;
    meta_shown = meta s d d.theme_color k refl;
  }

  pub language-Shows :
      (l : Language) (s : PreferenceState) (d : Document)
      → Shows s d
      → Shows (record s { language = l }) (document_with_language l d)
  unfolding document_with_language
  language-Shows zh s d h = record {
    lang_shown = refl;
    theme_shown = h.theme_shown;
    scheme_shown = h.scheme_shown;
    style_shown = h.style_shown;
    ochre_shown = h.ochre_shown;
    text_shown = h.text_shown;
    code_shown = h.code_shown;
    code_text_shown = h.code_text_shown;
    meta_shown = h.meta_shown;
  }
  language-Shows en s d h = record {
    lang_shown = refl;
    theme_shown = h.theme_shown;
    scheme_shown = h.scheme_shown;
    style_shown = h.style_shown;
    ochre_shown = h.ochre_shown;
    text_shown = h.text_shown;
    code_shown = h.code_shown;
    code_text_shown = h.code_text_shown;
    meta_shown = h.meta_shown;
  }
