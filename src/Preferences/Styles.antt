-- ===== src/Preferences/Styles.antt =====
-- frontend/src/store/themeStyles.ts: the styles of the site and the accents that they bring.
use notes_of_ashen.Base.{
  Text, codes, text_eq, List, [], ◌∷◌, Option, none, some, if◌then◌else◌, ◌≡◌, refl,
}

pub data ThemeStyle : Type 0 where
  editorial soft_brutalism japanese_paper swiss neo_brutalism dark_academia : ThemeStyle

abbrev theme_styles : List ThemeStyle
theme_styles =
    editorial ∷ soft_brutalism ∷ japanese_paper ∷ swiss ∷ neo_brutalism ∷ dark_academia ∷ []

abbrev pub style_text : ThemeStyle → Text
style_text editorial = codes "editorial"
style_text soft_brutalism = codes "soft-brutalism"
style_text japanese_paper = codes "japanese-paper"
style_text swiss = codes "swiss"
style_text neo_brutalism = codes "neo-brutalism"
style_text dark_academia = codes "dark-academia"

find_style : Text → List ThemeStyle → ThemeStyle
find_style value [] = editorial
find_style value (s ∷ ss) = if text_eq (style_text s) value then s else find_style value ss

unfoldable pub resolve_theme_style : Option Text → ThemeStyle
unfolding find_style
resolve_theme_style none = editorial
resolve_theme_style (some value) = find_style value theme_styles

-- The accent on a light page and on a dark one.
abbrev pub theme_style_accents : ThemeStyle → Text × Text
theme_style_accents editorial = (codes "#cc785c", codes "#d68a70")
theme_style_accents soft_brutalism = (codes "#85412b", codes "#edaa80")
theme_style_accents japanese_paper = (codes "#a94335", codes "#e29380")
theme_style_accents neo_brutalism = (codes "#183db5", codes "#a9c1ff")
theme_style_accents dark_academia = (codes "#704719", codes "#ddbd80")
theme_style_accents swiss = (codes "#b8371e", codes "#ff987e")

pub resolve_theme_style-style_text :
    (s : ThemeStyle) → resolve_theme_style (some (style_text s)) ≡ s
unfolding resolve_theme_style text_eq
resolve_theme_style-style_text editorial = refl
resolve_theme_style-style_text soft_brutalism = refl
resolve_theme_style-style_text japanese_paper = refl
resolve_theme_style-style_text swiss = refl
resolve_theme_style-style_text neo_brutalism = refl
resolve_theme_style-style_text dark_academia = refl
