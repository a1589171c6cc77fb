-- ===== src/Errors.antt =====
-- frontend/src/utils/error.ts: `translateMessage` and `toAppError`, with the entries of
-- frontend/src/i18n.ts that they read. The tables are in the children `Fields`, `Messages` and
-- `AiMessages`. Numbers (`code`, `status`) are natural numbers.
pub mod Locale
pub mod Fields
pub mod Messages
pub mod AiMessages
pub mod Laws
mod Tests
pub mod Listed
use notes_of_ashen.Base.{
  ℕ, zero, suc, ◌-◌, Text, codes, text_eq, truthy, or_text, starts_with, trim, lower, length, List,
  [], ◌∷◌, ◌++◌, Option, none, some, Bool, true, false, not, any, is_some, get_or, map, ◌==◌, ◌||◌,
  ◌&&◌, if◌then◌else◌,
}
use notes_of_ashen.Errors.Locale.{
  Language, zh, en, LocalizedText, in_language, Entry, find_entry, timeout, timeout_write,
  request_body_too_large, network,
}
use notes_of_ashen.Errors.Fields.{field_names}
use notes_of_ashen.Errors.Messages.{own_messages}
use notes_of_ashen.Errors.AiMessages.{ai_exact_error_messages}

-- Property names that every object inherits, so that `exactMessages[raw]` is not undefined there.
pub inherited_names : List Text
inherited_names =
    codes "constructor"
    ∷ codes "__defineGetter__"
    ∷ codes "__defineSetter__"
    ∷ codes "hasOwnProperty"
    ∷ codes "__lookupGetter__"
    ∷ codes "__lookupSetter__"
    ∷ codes "isPrototypeOf"
    ∷ codes "propertyIsEnumerable"
    ∷ codes "toString"
    ∷ codes "valueOf"
    ∷ codes "__proto__"
    ∷ codes "toLocaleString"
    ∷ []

pub is_inherited : Text → Bool
is_inherited raw = any (λ n. text_eq n raw) inherited_names

-- exactMessages: the provider's entries first, then the file's own.
pub exact_messages : List Entry
exact_messages = ai_exact_error_messages ++ own_messages

-- The templates of i18n.ts, and `operationFailedFallback`.
pub data Template : Type 0 where
  required length_invalid local_address count_invalid invalid : Template

template_text : Language → Template → Text
template_text zh required = codes "{field}不能为空"
template_text zh length_invalid = codes "{field}长度不符合要求"
template_text zh local_address = codes "{field}不能指向本地地址"
template_text zh count_invalid = codes "{field}数量不合法"
template_text zh invalid = codes "{field}不合法"
template_text en required = codes "{field} is required"
template_text en length_invalid = codes "{field} length is invalid"
template_text en local_address = codes "{field} must not point to a local address"
template_text en count_invalid = codes "{field} count is invalid"
template_text en invalid = codes "{field} is invalid"

operation_failed_fallback : Language → Text
operation_failed_fallback zh = codes "操作失败，请稍后重试"
operation_failed_fallback en = codes "Operation failed. Please try again later."

-- s.split(sep), for a non-empty `sep`; `skip` code units of a separator are still to be passed.
split_from : Text → ℕ → Text → Text → List Text
split_from sep skip cur [] = cur ∷ []
split_from sep (suc n) cur (c ∷ s) = split_from sep n cur s
split_from sep zero cur (c ∷ s) =
    let closed = cur ∷ split_from sep (length sep - 1) [] s in
    let longer = split_from sep zero (cur ++ c ∷ []) s in
    if starts_with (c ∷ s) sep then closed else longer

-- parts.join(glue)
join : Text → List Text → Text
join glue [] = []
join glue (p ∷ []) = p
join glue (p ∷ q ∷ ps) = p ++ glue ++ join glue (q ∷ ps)

-- formatText(template, { field })
format_field : Text → Text → Text
unfolding split_from join
format_field template field = join field (split_from (codes "{field}") 0 [] template)

-- `/^(.+)SUFFIX$/`: what `(.+)` matched. A dot matches no line terminator.
strip_suffix : Text → Text → Option Text
strip_suffix suffix [] = if text_eq [] suffix then some [] else none
strip_suffix suffix (c ∷ s) =
    let rest = strip_suffix suffix s in
    if text_eq (c ∷ s) suffix then some [] else elim rest [ none ↦ none | some p ↦ some (c ∷ p) ]

is_line_end : ℕ → Bool
is_line_end c = (c == 10) || (c == 13) || (c == 0x2028) || (c == 0x2029)

pub match_before : Text → Text → Option Text
unfolding strip_suffix is_line_end
match_before suffix raw = elim (strip_suffix suffix raw) [
  | none ↦ none
  | some p ↦ if truthy p && not (any is_line_end p) then some p else none
]

-- textFor(value, language, fallback)
text_for : Option LocalizedText → Language → Text → Text
text_for none language fallback = fallback
text_for (some t) language fallback = or_text (in_language language t) fallback

-- The five patterns in the order in which the source tries them.
pub patterns : List (Text × Template)
patterns =
    (codes " is required", required)
    ∷ (codes " length is invalid", length_invalid)
    ∷ (codes " must not point to a local address", local_address)
    ∷ (codes " count is invalid", count_invalid)
    ∷ (codes " is invalid", invalid)
    ∷ []

pub pattern_message : Language → Text → List (Text × Template) → Option Text
unfolding match_before text_for format_field template_text
pattern_message language raw [] = none
pattern_message language raw ((suffix, t) ∷ ps) = elim (match_before suffix raw) [
  | some name ↦ some (
      format_field (template_text language t)
        (text_for (find_entry name field_names) language name))
  | none ↦ pattern_message language raw ps
]

-- The text shown where there is no message to translate.
pub fallback_text : Language → Option Text → Text
unfolding text_for operation_failed_fallback
fallback_text language none = operation_failed_fallback language
fallback_text language (some fallback) =
    or_text (text_for (find_entry fallback exact_messages) language [])
      (or_text fallback (operation_failed_fallback language))

-- What is left when the message is no known one: an English page shows it as it is.
untranslated : Language → Text → Text → Text
untranslated zh raw fallback = fallback
untranslated en raw fallback = raw

translate_known : Language → Text → Text → Option LocalizedText → Text
unfolding untranslated is_inherited text_for
translate_known language raw fallback (some t) = text_for (some t) language fallback
translate_known language raw fallback none =
    if is_inherited raw
    then fallback
    else get_or (pattern_message language raw patterns) (untranslated language raw fallback)

translate_raw : Language → Text → Text → Text
unfolding translate_known
translate_raw language fallback [] = fallback
translate_raw language fallback (c ∷ s) =
    translate_known language (c ∷ s) fallback (find_entry (c ∷ s) exact_messages)

-- `none`: undefined
pub translate_message : Language → Option Text → Option Text → Text
unfolding translate_raw
translate_message language none fallback = fallback_text language fallback
translate_message language (some message) fallback =
    translate_raw language (fallback_text language fallback) (trim message)

pub record AppError : Type 0 where
  pub message : Text
  pub code : Option ℕ
  pub status : Option ℕ
  pub source_message : Text

pub record ErrorResponse : Type 0 where
  pub code : Option ℕ
  pub message : Option Text

-- `response`; `body` is `data`.
pub record HttpResponseLike : Type 0 where
  pub status : Option ℕ
  pub body : Option ErrorResponse

-- `method` is that of `config`.
pub record HttpErrorLike : Type 0 where
  pub code : Option Text
  pub method : Option Text
  pub response : Option HttpResponseLike

-- What may be thrown: `AppError`, an error of the HTTP client, another `Error`, or another value.
pub data Thrown : Type 0 where
  app_error : AppError → Thrown
  http_error : HttpErrorLike → Thrown
  plain_error : Text → Thrown
  other_value : Thrown

-- (method || 'get').toLowerCase()
unfoldable pub method_name : Option Text → Text
unfolding lower
method_name none = codes "get"
method_name (some m) = map lower (or_text m (codes "get"))

unfoldable pub is_get : Option Text → Bool
unfolding method_name
is_get m = text_eq (method_name m) (codes "get")

-- `httpError.code === name`
abbrev pub has_code : Text → Option Text → Bool
has_code name none = false
has_code name (some c) = text_eq c name

-- data?.message?.trim() || ''
body_message : Option ErrorResponse → Text
body_message none = []
body_message (some r) = elim r.message [ none ↦ [] | some m ↦ trim m ]

body_code : Option ErrorResponse → Option ℕ
body_code none = none
body_code (some r) = r.code

abbrev status_of : Option HttpResponseLike → Option ℕ
status_of none = none
status_of (some r) = r.status

abbrev has_status : ℕ → Option ℕ → Bool
has_status n none = false
has_status n (some m) = m == n

-- The key, or the server's message, that the error is shown by; and its code and status.
pub record Cause : Type 0 where
  pub source : Option Text
  pub source_message : Text
  pub code : Option ℕ
  pub status : Option ℕ

response_cause : Option HttpResponseLike → Cause
unfolding body_message body_code
response_cause none = record {
  source = some network;
  source_message = network;
  code = none;
  status = none;
}
response_cause (some r) =
    if has_status 413 r.status
    then record {
      source = some request_body_too_large;
      source_message = request_body_too_large;
      code = none;
      status = r.status;
    }
    else record {
      source = some (body_message r.body);
      source_message = body_message r.body;
      code = body_code r.body;
      status = r.status;
    }

http_cause : HttpErrorLike → Cause
unfolding response_cause is_get
http_cause e =
    let key = if is_get e.method then timeout else timeout_write in
    if has_code (codes "ECONNABORTED") e.code
    then record {
      source = some key;
      source_message = key;
      code = none;
      status = status_of e.response;
    }
    else response_cause e.response

pub cause : Thrown → Cause
cause (app_error e) = record {
  source = some e.source_message;
  source_message = e.source_message;
  code = e.code;
  status = e.status;
}
cause (http_error e) = http_cause e
cause (plain_error m) = record { source = some m; source_message = m; code = none; status = none }
cause other_value = record { source = none; source_message = []; code = none; status = none }

unfoldable pub to_app_error : Language → Thrown → Option Text → AppError
to_app_error language error fallback =
    let c = cause error in
    record {
      message = translate_message language c.source fallback;
      code = c.code;
      status = c.status;
      source_message = c.source_message;
    }
