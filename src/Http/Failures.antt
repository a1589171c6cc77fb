-- ===== src/Http/Failures.antt =====
-- frontend/src/utils/http.ts: what the client reads of a failed request, and what it does about it.
use notes_of_ashen.Base.{
  ℕ, Text, codes, includes, text_eq, lower, map, truthy, List, Option, none, some, Bool, true,
  false, not, ◌||◌, ◌&&◌, ◌==◌, if◌then◌else◌,
}
use notes_of_ashen.Errors.{Thrown, http_error, ErrorResponse, has_code}
use notes_of_ashen.Json.{Json, undef, null, bool, num, str, arr, obj, text_property, num_property}
use notes_of_ashen.Mojibake.{fix_deep}
use notes_of_ashen.Http.Requests.{
  Config, is_auth_retry_endpoint, should_network_retry, bearer, sent_authorization,
}

-- A response's data: a parsed value, or a `Blob` with its type and what `text()` gives.
pub data Payload : Type 0 where
  json : Json → Payload
  blob : Text → Text → Payload

pub record Response : Type 0 where
  pub status : ℕ
  pub payload : Payload
  pub content_type : Option Text

pub record Failure : Type 0 where
  pub is_cancel : Bool
  pub code : Option Text
  pub config : Option Config
  pub response : Option Response

-- isJSONContentType
is_json_content_type : Option Text → Bool
is_json_content_type none = false
is_json_content_type (some value) =
    includes (map lower value) (codes "application/json")
    || includes (map lower value) (codes "+json")

-- typeof parsed === 'object' && parsed !== null ? parsed : data
object_or : Payload → Option Json → Payload
object_or p (some (arr xs)) = json (arr xs)
object_or p (some (obj fs)) = json (obj fs)
object_or p _ = p

-- parseJSONBlobError
unfoldable pub parse_json_blob_error : (Text → Option Json) → Payload → Option Text → Payload
unfolding is_json_content_type object_or
parse_json_blob_error parse (json v) content_type = json v
parse_json_blob_error parse (blob type text) content_type =
    if not (is_json_content_type content_type) && not (is_json_content_type (some type))
    then blob type text
    else object_or (blob type text) (parse text)

-- if (error.response?.data)
is_truthy : Payload → Bool
is_truthy (json undef) = false
is_truthy (json null) = false
is_truthy (json (bool x)) = x
is_truthy (json (num n)) = not (n == 0)
is_truthy (json (str s)) = truthy s
is_truthy _ = true

pub repair_payload : (List ℕ → Option Text) → Payload → Payload
repair_payload decode (json v) = json (fix_deep decode v)
repair_payload decode (blob type text) = blob type text

unfoldable pub repair : (List ℕ → Option Text) → (Text → Option Json) → Failure → Failure
unfolding repair_payload is_truthy
repair decode parse e = elim e.response [
  | none ↦ e
  | some r ↦
      if is_truthy r.payload
      then record e {
        response = some (record r {
          payload = repair_payload decode (parse_json_blob_error parse r.payload r.content_type);
        });
      }
      else e
]

-- The error body that `toAppError` reads.
unfoldable pub error_body : Payload → ErrorResponse
error_body (json v) = record {
  code = num_property (codes "code") v;
  message = text_property (codes "message") v;
}
error_body (blob type text) = record { code = none; message = none }

unfoldable pub as_thrown : Failure → Thrown
unfolding error_body
as_thrown e = http_error (record {
  code = e.code;
  method = elim e.config [ none ↦ none | some c ↦ c.method ];
  response = elim e.response [
    | none ↦ none
    | some r ↦ some (record { status = some r.status; body = some (error_body r.payload) })
  ];
})

abbrev text_is : Text → Option Text → Bool
text_is t none = false
text_is t (some s) = text_eq s t

-- isCurrentPasswordRejection(error.response.data)
unfoldable pub is_current_password_rejection : Payload → Bool
is_current_password_rejection (json v) =
    text_is (codes "current password is incorrect") (text_property (codes "message") v)
is_current_password_rejection (blob type text) = false

-- error.response?.status === 401, and the password was not what was refused
unfoldable pub is_unauthorized : Option Response → Bool
unfolding is_current_password_rejection
is_unauthorized none = false
is_unauthorized (some r) = r.status == 401 && not (is_current_password_rejection r.payload)

-- !error.response && (error.code === 'ECONNABORTED' || error.code === 'ERR_NETWORK')
unfoldable pub is_network_error : Failure → Bool
is_network_error e = elim e.response [
  | none ↦ has_code (codes "ECONNABORTED") e.code || has_code (codes "ERR_NETWORK") e.code
  | some r ↦ false
]

-- What the error interceptor does about a failure: pass a cancellation on, reject, send again with
-- the token that another task has fetched, fetch a new token first, or try the network again.
pub data Plan : Type 0 where
  pass_on give_up : Plan
  resend : Text → Config → Plan
  refresh retry : Config → Plan

-- `failedToken && currentToken && failedToken !== bearer(currentToken)`: the token to send with.
unfoldable pub newer_token : Option Text → Option Text → Option Text
newer_token none current = none
newer_token (some sent) none = none
newer_token (some sent) (some token) =
    if truthy sent && truthy token && not (text_eq sent (bearer token)) then some token else none

plan_unauthorized : Option Text → Config → Plan
unfolding newer_token
plan_unauthorized current config =
    let config' = record config { retry = true } in
    elim (newer_token (sent_authorization config) current) [
      | some token ↦ resend token config'
      | none ↦ refresh config'
    ]

plan_request : Option Text → Failure → Config → Plan
unfolding plan_unauthorized
plan_request current e config =
    if is_unauthorized e.response && not config.retry
    then plan_unauthorized current config
    else if is_network_error e && not config.network_retry && should_network_retry config
    then retry (record config { network_retry = true })
    else give_up

-- `current`: the store's access token.
unfoldable pub plan : Option Text → Failure → Plan
unfolding plan_request
plan current e = if e.is_cancel then pass_on else elim e.config [
  | none ↦ give_up
  | some config ↦
      if is_auth_retry_endpoint config.url then give_up else plan_request current e config
]
