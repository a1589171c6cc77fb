-- ===== src/Preferences/Display.antt =====
-- frontend/src/store/preferences.ts: the values of the preferences, how they are stored as texts, and
-- what `applyLanguage`, `applyTheme`, `applyThemeStyle` and `applyAccentColor` write to the document.
-- `getContrastingTextColor` of frontend/src/utils/color.ts, which computes in floating point, is the
-- argument `contrasting`.
use notes_of_ashen.Base.{
  Text, codes, [], text_eq, truthy, or_text, Option, none, some, Bool, true, false, if◌then◌else◌,
}
use notes_of_ashen.Errors.Locale.{Language, zh, en}
use notes_of_ashen.Preferences.Color.{is_hex_color, hex_to_rgba}
use notes_of_ashen.Preferences.Styles.{ThemeStyle, theme_style_accents}

pub data ThemePreference : Type 0 where
  system light dark : ThemePreference

pub data EffectiveTheme : Type 0 where
  light_theme dark_theme : EffectiveTheme

abbrev pub language_text : Language → Text
language_text zh = codes "zh"
language_text en = codes "en"

abbrev pub preference_text : ThemePreference → Text
preference_text system = codes "system"
preference_text light = codes "light"
preference_text dark = codes "dark"

abbrev pub is_dark_theme : EffectiveTheme → Bool
is_dark_theme light_theme = false
is_dark_theme dark_theme = true

-- The attributes and custom properties of `document.documentElement`; `theme_color` is the content of
-- the `meta` element, where there is one.
pub record Document : Type 0 where
  pub lang : Text
  pub theme : Option EffectiveTheme
  pub color_scheme : Option EffectiveTheme
  pub style : Option ThemeStyle
  pub ochre : Option Text
  pub on_accent : Option Text
  pub inline_code_bg : Option Text
  pub code_ochre : Option Text
  pub theme_color : Option Text

pub record PreferenceState : Type 0 where
  pub language : Language
  pub theme_preference : ThemePreference
  pub effective_theme : EffectiveTheme
  pub theme_style : ThemeStyle
  pub accent_color : Text

abbrev pub language_key : Text
language_key = codes "notesOfAshen.language"

abbrev pub theme_key : Text
theme_key = codes "notesOfAshen.theme"

abbrev pub accent_key : Text
accent_key = codes "notesOfAshen.accentColor"

abbrev pub style_key : Text
style_key = codes "notesOfAshen.themeStyle"

-- What a stored value means; `none` is a missing one.
unfoldable pub language_from : Option Text → Language
language_from none = zh
language_from (some t) = if text_eq t (codes "en") then en else zh

unfoldable pub preference_from : Option Text → ThemePreference
preference_from none = system
preference_from (some t) =
    if text_eq t (codes "light") then light else if text_eq t (codes "dark") then dark else system

unfoldable pub accent_from : Option Text → Text
accent_from none = []
accent_from (some t) = if is_hex_color t then t else []

-- document.documentElement.dataset.theme === 'dark'
abbrev pub document_is_dark : Document → Bool
document_is_dark d = elim d.theme [ none ↦ false | some t ↦ is_dark_theme t ]

unfoldable pub document_with_language : Language → Document → Document
document_with_language zh d = record d { lang = codes "zh-CN" }
document_with_language en d = record d { lang = codes "en" }

unfoldable pub document_with_theme : EffectiveTheme → Document → Document
document_with_theme t d = record d { theme = some t; color_scheme = some t }

unfoldable pub document_with_style : ThemeStyle → Document → Document
document_with_style s d = record d { style = some s }

-- The value of each property for an accent, on a dark page or not.
abbrev pub when_accent : Text → Text → Option Text
when_accent accent value = if truthy accent then some value else none

abbrev pub code_background : Text → Bool → Text
code_background accent is_dark = hex_to_rgba accent (if is_dark then codes "0.14" else codes "0.08")

abbrev pub style_accent : ThemeStyle → Bool → Text
style_accent s is_dark = if is_dark then (theme_style_accents s).1 else (theme_style_accents s).0

module _ (contrasting : Text → Text) where
  unfoldable pub document_with_accent : Text → ThemeStyle → Document → Document
  document_with_accent accent s d =
      let is_dark = document_is_dark d in
      let meta : Option Text = elim d.theme_color [
        | none ↦ none
        | some old ↦ some (or_text accent (style_accent s is_dark))
      ] in
      record d {
        ochre = when_accent accent accent;
        on_accent = when_accent accent (contrasting accent);
        inline_code_bg = when_accent accent (code_background accent is_dark);
        code_ochre = when_accent accent accent;
        theme_color = meta;
      }
