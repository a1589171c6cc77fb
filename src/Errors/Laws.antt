-- ===== src/Errors/Laws.antt =====
-- `translateMessage` and `toAppError` over all errors, messages and languages.
use notes_of_ashen.Base.{
  if◌then◌else◌, Text, codes, trim, Option, none, some, ◌≡◌, refl, arith, [], Bool-cases, inl, inr,
}
use notes_of_ashen.Errors.Locale.{network, timeout_write, timeout, Language}
use notes_of_ashen.Errors.{
  is_get, Thrown, app_error, http_error, plain_error, other_value, HttpErrorLike, HttpResponseLike,
  to_app_error, translate_message, cause, http_cause, response_cause, has_code,
}

translate_message-empty :
    (l : Language) (fb : Option Text)
    → translate_message l (some []) fb ≡ translate_message l none fb
unfolding translate_message trim
translate_message-empty l fb = refl

response_cause-source :
    (r : Option HttpResponseLike)
    → (response_cause r).source ≡ some (response_cause r).source_message
unfolding response_cause
response_cause-source none = refl
response_cause-source (some r) = ground arith

http_cause-source : (e : HttpErrorLike) → (http_cause e).source ≡ some (http_cause e).source_message
unfolding http_cause
http_cause-source e = elim (Bool-cases (has_code (codes "ECONNABORTED") e.code)) [
  | inl h ↦ rw h
  | inr h ↦ rw h (response_cause-source e.response)
]

-- The error that an error handler has made of a thrown value can be handled again, in the same
-- language or after a switch to another: the result is the one that the thrown value itself gives.
pub to_app_error-to_app_error :
    (l l' : Language) (e : Thrown) (fb fb' : Option Text)
    → to_app_error l' (app_error (to_app_error l e fb)) fb' ≡ to_app_error l' e fb'
unfolding to_app_error cause
to_app_error-to_app_error l l' (app_error e) fb fb' = refl
to_app_error-to_app_error l l' (plain_error m) fb fb' = refl
to_app_error-to_app_error l l' other_value fb fb' = rw (translate_message-empty l' fb')
to_app_error-to_app_error l l' (http_error e) fb fb' = rw (http_cause-source e)

-- The source message of an error that brought no response tells a time-out of a read from one of a
-- write, and either from a lost connection.
pub source_message-silent :
    (l : Language) (e : HttpErrorLike) (fb : Option Text)
    → e.response ≡ none
    → (to_app_error l (http_error e) fb).source_message ≡ (
        if has_code (codes "ECONNABORTED") e.code
        then (if is_get e.method then timeout else timeout_write)
        else network)
unfolding to_app_error cause http_cause response_cause
source_message-silent l e fb h = ground arith
