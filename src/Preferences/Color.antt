-- ===== src/Preferences/Color.antt =====
-- frontend/src/utils/color.ts: colours that are written as six hexadecimal digits.
use notes_of_ashen.Base.{
  ℕ, ◌+◌, ◌-◌, ◌*◌, Text, codes, trim, length, all, decimal, [], ◌∷◌, ◌++◌, take, drop, Option,
  none, some, Bool, ◌==◌, ◌&&◌, ◌||◌, leb, if◌then◌else◌,
}

abbrev strip_hash : Text → Text
strip_hash [] = []
strip_hash (c ∷ s) = if c == b'#' then s else c ∷ s

unfoldable pub normalize_hex : Text → Text
normalize_hex value = strip_hash (trim value)

-- [0-9a-f], upper case included
is_hex_digit : ℕ → Bool
is_hex_digit c =
    (leb b'0' c && leb c b'9') || (leb b'a' c && leb c b'f') || (leb b'A' c && leb c b'F')

abbrev is_six_digits : Text → Bool
is_six_digits hex = (length hex == 6) && all is_hex_digit hex

unfoldable pub is_hex_color : Text → Bool
unfolding normalize_hex is_hex_digit
is_hex_color value = is_six_digits (normalize_hex value)

digit_value : ℕ → ℕ
digit_value c =
    if leb c b'9' then c - b'0' else if leb b'a' c then 10 + (c - b'a') else 10 + (c - b'A')

-- Number.parseInt(pair, 16) on two digits
parse_pair : Text → ℕ
unfolding digit_value
parse_pair (a ∷ b ∷ []) = 16 * digit_value a + digit_value b
parse_pair _ = 0

unfoldable pub hex_to_rgb : Text → Option (ℕ × ℕ × ℕ)
unfolding normalize_hex parse_pair is_hex_digit
hex_to_rgb value =
    let hex = normalize_hex value in
    if is_six_digits hex
    then some (
      parse_pair (take 2 hex),
      parse_pair (take 2 (drop 2 hex)),
      parse_pair (take 2 (drop 4 hex)),
    )
    else none

-- `alpha` is the number as it is printed.
unfoldable pub hex_to_rgba : Text → Text → Text
unfolding hex_to_rgb
hex_to_rgba hex alpha = elim (hex_to_rgb hex) [
  | none ↦ []
  | some (r, g, b) ↦
      codes "rgba("
      ++ decimal r
      ++ codes ", "
      ++ decimal g
      ++ codes ", "
      ++ decimal b
      ++ codes ", "
      ++ alpha
      ++ codes ")"
]
