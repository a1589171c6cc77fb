-- ===== src/Redirect.antt =====
-- frontend/src/utils/authRedirect.ts: where a visitor is taken after signing in. The parser of URLs,
-- against the base https://app.invalid, is a parameter. A value of another type than the model's
-- `Json` is read as the source reads it, since it has neither a text nor a property `pathname`.
pub mod Slashes
mod Tests
use notes_of_ashen.Base.{
  ℕ, Text, codes, map, lower, leb, includes, starts_with, text_eq, [], List, ◌∷◌, ◌++◌, any, Option,
  none, some, Bool, true, false, not, ◌||◌, ◌&&◌, ◌==◌, if◌then◌else◌,
}
use notes_of_ashen.Json.{Json, str, property}

pub record Url : Type 0 where
  pub origin : Text
  pub pathname : Text
  pub search : Text
  pub hash : Text

-- A part that is absent is empty; one that is no text, or starts otherwise, is refused.
unfoldable pub part_of : Text → Option Json → Option Text
part_of mark none = some []
part_of mark (some (str [])) = some []
part_of mark (some (str (c ∷ s))) = if starts_with (c ∷ s) mark then some (c ∷ s) else none
part_of mark (some _) = none

abbrev pub joined : Text → Option Text → Option Text → Option Text
joined path (some search) (some hash) = some (path ++ search ++ hash)
joined path _ _ = none

-- `target`: the text, or the location.
unfoldable pub target_of : Json → Option Text
unfolding part_of
target_of (str s) = some s
target_of from = elim (property (codes "pathname") from) [
  | some (str path) ↦
      joined path (part_of (codes "?") (property (codes "search") from))
        (part_of (codes "#") (property (codes "hash") from))
  | _ ↦ none
]

-- A character that is a space, a control character or DEL.
abbrev pub is_control : ℕ → Bool
is_control c = leb c 32 || c == 127

unfoldable pub is_refused : Text → Bool
is_refused target =
    not (starts_with target (codes "/"))
    || starts_with target (codes "//")
    || includes target (codes "\\")
    || any is_control target

-- /^\/login\/?$/i
unfoldable pub is_login : Text → Bool
is_login path =
    text_eq (map lower path) (codes "/login") || text_eq (map lower path) (codes "/login/")

abbrev pub own_origin : Text
own_origin = codes "https://app.invalid"

module _ (parse_url : Text → Option Url) where
  unfoldable pub resolve_target : Text → Text
  unfolding is_refused is_login
  resolve_target target = if is_refused target then codes "/" else elim (parse_url target) [
    | none ↦ codes "/"
    | some url ↦
        if not (text_eq url.origin own_origin) || is_login url.pathname
        then codes "/"
        else url.pathname ++ url.search ++ url.hash
  ]

  unfoldable pub resolve_auth_redirect : Json → Text
  unfolding target_of resolve_target
  resolve_auth_redirect from = elim (target_of from) [
    | none ↦ codes "/"
    | some target ↦ resolve_target target
  ]
