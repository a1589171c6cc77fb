-- ===== src/Redirect/Slashes.antt =====
-- Targets whose path has an empty segment.
use notes_of_ashen.Base.{
  ℕ, Text, codes, lower, leb, includes, starts_with, text_eq, [], ◌∷◌, ◌++◌, any, all, append-nil,
  Option, some, Bool, true, false, ◌||◌, ◌&&◌, ◌==◌, ◌≡◌, refl, ap, ◌∙◌, arith,
}
use notes_of_ashen.Json.{str}
use notes_of_ashen.Redirect.{
  Url, is_control, is_refused, is_login, own_origin, target_of, resolve_target,
  resolve_auth_redirect,
}

-- A letter, and the characters of a host's name.
abbrev is_letter : ℕ → Bool
is_letter c = leb b'a' c && leb c b'z'

abbrev is_host_char : ℕ → Bool
is_host_char c = is_letter c || (leb b'0' c && leb c b'9') || c == b'-' || c == b'.'

abbrev pub is_host : Text → Bool
is_host [] = false
is_host (c ∷ s) = is_letter c && all is_host_char s

plain_chars : (s : Text) → all is_host_char s ≡ true → any is_control s ≡ false
plain_chars [] h = refl
plain_chars (c ∷ s) h = ground (arith, plain_chars s)

plain_slashes : (s : Text) → all is_host_char s ≡ true → includes s (codes "\\") ≡ false
unfolding includes starts_with
plain_slashes [] h = refl
plain_slashes (c ∷ s) h = ground (arith, plain_slashes s)

plain_host : (s : Text) → is_host s ≡ true → all is_host_char s ≡ true
plain_host [] h = refl
plain_host (c ∷ s) h = ground (arith, h)

-- The parser drops a segment `.`, as the URL standard says, and keeps the empty one behind it.
abbrev pub DropsDot : (Text → Option Url) → Type 0
DropsDot parse_url =
    (host : Text)
    → is_host host ≡ true
    → parse_url (codes "/.//" ++ host)
      ≡ some (record { origin = own_origin; pathname = codes "//" ++ host; search = []; hash = [] })

-- With a parser of URLs that drops a segment `.`, a target `/.//host` passes the test for two slashes
-- at the start and is resolved to `//host`, which names another host.
pub resolve_auth_redirect-slashes :
    (parse_url : Text → Option Url)
    → DropsDot parse_url
    → (host : Text) → is_host host ≡ true
    → resolve_auth_redirect parse_url (str (codes "/.//" ++ host)) ≡ codes "//" ++ host
unfolding resolve_auth_redirect target_of resolve_target is_refused is_login starts_with includes
    text_eq lower
resolve_auth_redirect-slashes parse_url drops host h =
    let plain = plain_host host h in
    rw (plain_chars host plain, plain_slashes host plain, drops host h)
      (ap (λ t. b'/' ∷ b'/' ∷ t) (append-nil (host ++ []) ∙ append-nil host))
