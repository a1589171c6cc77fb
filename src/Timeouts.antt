-- ===== src/Timeouts.antt =====
-- frontend/src/utils/timeoutPolicy.ts: the default time limit of a request by its method and path.
-- A regular expression is a test at one position of the URL, and `test` tries every position. `\b`
-- behind a word asks that no word character follows. Times are in milliseconds.
use notes_of_ashen.Base.{
  ℕ, Text, codes, [], ◌∷◌, Option, none, some, Bool, true, false, not, ◌||◌, ◌&&◌, leb, ◌==◌,
  if◌then◌else◌,
}
use notes_of_ashen.Errors.{is_get}

abbrev pub timeout_default_get : ℕ
timeout_default_get = 10_000

abbrev pub timeout_default_write : ℕ
timeout_default_write = 30_000

abbrev pub timeout_long_running : ℕ
timeout_long_running = 600_000

-- `(?:\?|$)`
at_query : Text → Bool
at_query [] = true
at_query (c ∷ s) = c == b'?'

is_word : ℕ → Bool
is_word c =
    (leb b'0' c && leb c b'9')
    || (leb b'A' c && leb c b'Z')
    || (leb b'a' c && leb c b'z')
    || (c == b'_')

-- `\b` behind a word character
at_word_end : Text → Bool
unfolding is_word
at_word_end [] = true
at_word_end (c ∷ s) = not (is_word c)

-- The literal `p` at this position, and `k` behind it.
follows : Text → (Text → Bool) → Text → Bool
follows [] k s = k s
follows (p ∷ ps) k [] = false
follows (p ∷ ps) k (c ∷ s) = (p == c) && follows ps k s

-- `[^/]+/export\b`, once a first character that is no slash has been read.
segment_export : Text → Bool
unfolding follows at_word_end
segment_export [] = false
segment_export (c ∷ s) =
    if c == b'/' then follows (codes "export") at_word_end s else segment_export s

article_export : Text → Bool
unfolding segment_export
article_export [] = false
article_export (c ∷ s) = not (c == b'/') && segment_export s

-- pattern.test(url)
matches_anywhere : (Text → Bool) → Text → Bool
matches_anywhere p [] = p []
matches_anywhere p (c ∷ s) = p (c ∷ s) || matches_anywhere p s

-- SERVER_MANAGED_AI_PATTERNS
unfoldable pub is_server_managed_ai : Text → Bool
unfolding matches_anywhere follows at_query
is_server_managed_ai url =
    matches_anywhere (follows (codes "/articles/ai/assist") at_query) url
    || matches_anywhere (follows (codes "/admin/ai/models") at_query) url
    || matches_anywhere (follows (codes "/admin/ai/test") at_query) url
    || matches_anywhere (follows (codes "/admin/rag/test") at_query) url

-- LONG_RUNNING_PATTERNS
unfoldable pub is_long_running : Text → Bool
unfolding matches_anywhere follows at_word_end article_export
is_long_running url =
    matches_anywhere (follows (codes "/articles/import") at_word_end) url
    || matches_anywhere (follows (codes "/articles/") article_export) url
    || matches_anywhere (follows (codes "/admin/search/reindex") at_word_end) url
    || matches_anywhere (follows (codes "/admin/backups/export") at_word_end) url
    || matches_anywhere (follows (codes "/admin/backups/restore") at_word_end) url

abbrev url_or_empty : Option Text → Text
url_or_empty none = []
url_or_empty (some u) = u

unfoldable pub resolve_default_timeout : (url method : Option Text) → ℕ
resolve_default_timeout url method =
    if is_server_managed_ai (url_or_empty url)
    then 0
    else if is_long_running (url_or_empty url)
    then timeout_long_running
    else if is_get method
    then timeout_default_get
    else timeout_default_write
