-- ===== src/Errors/Locale.antt =====
-- frontend/src/utils/error.ts: languages, localised texts, and the client's own error keys.
use Prim.Native.String.{String}
use notes_of_ashen.Base.{Text, codes, text_eq, List, [], ◌∷◌, Option, none, some, if◌then◌else◌}

pub data Language : Type 0 where
  zh en : Language

-- `Record<Language, string>`
pub record LocalizedText : Type 0 where
  pub zh_text : Text
  pub en_text : Text

-- value[language]
abbrev pub in_language : Language → LocalizedText → Text
in_language zh t = t.zh_text
in_language en t = t.en_text

pub record Entry : Type 0 where
  pub key : Text
  pub text : LocalizedText

-- `key: localized(zh, en)`
abbrev pub entry : Text → String → String → Entry
entry k z e = record { key = k; text = record { zh_text = codes z; en_text = codes e } }

-- table[key], own properties only
unfoldable pub find_entry : Text → List Entry → Option LocalizedText
find_entry k [] = none
find_entry k (e ∷ es) = if text_eq e.key k then some e.text else find_entry k es

-- ERROR_KEYS
abbrev pub session_expired : Text
session_expired = codes "__session_expired__"

abbrev pub operation_failed : Text
operation_failed = codes "__operation_failed__"

abbrev pub timeout : Text
timeout = codes "__timeout__"

abbrev pub timeout_write : Text
timeout_write = codes "__timeout_write__"

abbrev pub request_body_too_large : Text
request_body_too_large = codes "__request_body_too_large__"

abbrev pub network : Text
network = codes "__network_error__"

abbrev pub duplicate_submit : Text
duplicate_submit = codes "__duplicate_submit__"
