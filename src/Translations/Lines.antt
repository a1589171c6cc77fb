-- ===== src/Translations/Lines.antt =====
-- frontend/src/i18n.ts: the entries of a dictionary, and the texts that are made from them.
use Prim.Native.String.{String}
use notes_of_ashen.Base.{
  ℕ, zero, suc, Text, codes, text_eq, starts_with, length, [], List, ◌∷◌, ◌++◌, Option, none, some,
  Bool, if◌then◌else◌,
}

-- An entry `'key': 'text'`.
pub record Line : Type 0 where
  pub key : String
  pub text : String

abbrev pub line : String → String → Line
line k t = record { key = k; text = t }

-- dictionary[key]
unfoldable pub find_line : Text → List Line → Option Text
find_line k [] = none
find_line k (l ∷ ls) = if text_eq (codes l.key) k then some (codes l.text) else find_line k ls

-- The length of what is left of a match.
abbrev after : Bool → ℕ → ℕ
after hit n = if hit then n else 0

-- message.split(pattern).join(value): `skip` is what is left of a match, `n` the length of the
-- pattern but one.
unfoldable pub replace_from : Text → Text → ℕ → ℕ → Text → Text
replace_from pattern value n skip [] = []
replace_from pattern value n (suc skip) (c ∷ s) = replace_from pattern value n skip s
replace_from pattern value n zero (c ∷ s) =
    let hit = starts_with (c ∷ s) pattern in
    let rest = replace_from pattern value n (after hit n) s in
    if hit then value ++ rest else c ∷ rest

-- The pattern `{key}`, which is never empty.
unfoldable pub replace_key : Text → Text → Text → Text
unfolding replace_from
replace_key key value message =
    replace_from (codes "{" ++ key ++ codes "}") value (suc (length key)) 0 message

-- formatText
unfoldable pub format_text : Text → List (Text × Text) → Text
unfolding replace_key
format_text template [] = template
format_text template ((key, value) ∷ values) = format_text (replace_key key value template) values
