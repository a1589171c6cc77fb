-- ===== src/Http.antt =====
-- frontend/src/utils/http.ts: the interceptors of the HTTP client, its retries, and the end of a
-- session. Axios, the server and the browser are a `Platform`; what other tasks do while a request is
-- waited for is part of the effect of that request on the client's state.
-- `parseJSONBlobError` and `isCurrentPasswordRejection` are those of frontend/src/utils/error.ts,
-- `getVisitorId` is that of visitor.ts, `notifyFromError` that of notify.ts.
pub mod Requests
pub mod Failures
pub mod Fuel
pub mod Loading
pub mod Expiry
pub mod Stringify
pub mod Order
pub mod Writes
pub mod Shared
pub mod Keys
mod Tests
mod SharingTests
use notes_of_ashen.Base.{
  ℕ, zero, suc, Text, codes, includes, text_eq, or_text, trim, truthy, lower, map, List, [], ◌∷◌,
  Option, none, some, Bool, true, false, not, ◌||◌, ◌&&◌, ◌==◌, if◌then◌else◌,
}
use notes_of_ashen.Storage.{Backend, get_item, set_item}
use notes_of_ashen.Ui.{push_toast, inc_loading, dec_loading, error}
use notes_of_ashen.Errors.{
  Thrown, app_error, http_error, plain_error, AppError, HttpResponseLike, to_app_error, has_code,
}
use notes_of_ashen.Errors.Locale.{Language, zh, en, session_expired, operation_failed}
use notes_of_ashen.Json.{
  Json, undef, null, obj, end, text_property, num_property, is_success_response,
}
use notes_of_ashen.Mojibake.{fix_deep}
use notes_of_ashen.Client.{Client, with_auth, logout, read_language, notify_session_expired}
use notes_of_ashen.Auth.{Settled, resolved, rejected, RefreshResponse, read_refresh}
use notes_of_ashen.Http.Requests.{Config, prepare, authorize}
use notes_of_ashen.Http.Failures.{
  Payload, json, blob, Response, Failure, repair, repair_payload, as_thrown, Plan, pass_on, give_up,
  resend, refresh, retry, plan,
}

-- How axios settles a request that was sent.
pub data Reply : Type 0 where
  answered : Response → Reply
  failed : Failure → Reply

-- How the promise that the client's caller holds is settled: with the body, with the whole response
-- (a download), or rejected, a cancellation as it is. `out_of_fuel` is the model's own.
pub data Outcome : Type 0 where
  delivered : Json → Outcome
  downloaded : Response → Outcome
  refused : Thrown → Outcome
  cancelled : Failure → Outcome
  out_of_fuel : Outcome

-- Axios (`dispatch`, `post_refresh`), `crypto.randomUUID` or its stand-in, `TextDecoder`,
-- `JSON.parse`, and the text of the error that reading a property of null throws.
pub record Platform (b : Backend) (World : Type 0) : Type 0 where
  pub dispatch : Config → Client b World → Reply × Client b World
  pub post_refresh : Client b World → Settled RefreshResponse × Client b World
  pub fresh_id : Client b World → Text × Client b World
  pub decode : List ℕ → Option Text
  pub parse_json : Text → Option Json
  pub null_access : Text

session_expired_text : Language → Text
session_expired_text zh = codes "会话已失效，请重新登录"
session_expired_text en = codes "Session expired. Please sign in again."

abbrev id_or_empty : Option Text → Text
id_or_empty none = []
id_or_empty (some id) = id

abbrev message_of : Option Text → Text
message_of none = []
message_of (some m) = m

module _ {b : Backend} {World : Type 0} (p : Platform b World) where
  -- getVisitorId
  visitor_id : Client b World → Text × Client b World
  visitor_id c =
      let key = codes "notesOfAshen.visitorId" in
      let (stored, storage) = get_item b key c.storage in
      let c1 = record c { storage = storage } in
      let (id, c2) = p.fresh_id c1 in
      if truthy (id_or_empty stored)
      then (id_or_empty stored, c1)
      else (id, record c2 { storage = set_item b key id c2.storage })

  -- Promise.reject(toAppError(error, fallback))
  pub reject : Thrown → Option Text → Client b World → Outcome × Client b World
  reject e fallback c =
      let (language, c1) = read_language c in
      (refused (app_error (to_app_error language e fallback)), c1)

  -- The request interceptor.
  pub on_request : Config → Client b World → Config × Client b World
  unfolding visitor_id
  on_request config c =
      let c1 = record c { ui = inc_loading c.ui } in
      let (visitor, c2) = visitor_id c1 in (prepare c1.auth.access_token visitor config, c2)

  abbrev pub finish_loading : Client b World → Client b World
  finish_loading c = record c { ui = dec_loading c.ui }

  -- new AppError(data.message || ERROR_KEYS.operationFailed, data.code)
  business_error : Json → AppError
  business_error v =
      let message = or_text (message_of (text_property (codes "message") v)) operation_failed in
      record {
        message = message;
        code = num_property (codes "code") v;
        status = none;
        source_message = message;
      }

  -- The rejection of a body that is no success; reading a property of null throws.
  on_business_failure : Payload → Client b World → Outcome × Client b World
  unfolding business_error reject
  on_business_failure (json undef) c = (refused (plain_error p.null_access), c)
  on_business_failure (json null) c = (refused (plain_error p.null_access), c)
  on_business_failure (json v) c = reject (app_error (business_error v)) none c
  on_business_failure (blob type text) c = reject (app_error (business_error (obj end))) none c

  abbrev is_success : Payload → Option Json
  is_success (json v) = if is_success_response v then some v else none
  is_success (blob type text) = none

  -- The response interceptor, where the request was answered.
  on_answer : Config → Response → Client b World → Outcome × Client b World
  on_answer config r c =
      let c1 = finish_loading c in
      let body = repair_payload p.decode r.payload in
      if config.is_blob then (downloaded r, c1) else elim (is_success body) [
        | some v ↦ (delivered v, c1)
        | none ↦ on_business_failure body c1
      ]

  -- notifyFromError(error, 'toast.sessionExpired')
  notify_session_toast : Thrown → Client b World → Client b World
  unfolding session_expired_text
  notify_session_toast e c =
      let (language, c1) = read_language c in
      let message =
        or_text (trim (to_app_error language e none).message) (session_expired_text c1.language) in
      record c1 { ui = (push_toast error message none c1.ui).1 }

  pub handle_session_expired : Thrown → Client b World → Client b World
  handle_session_expired e c =
      let c1 = logout (record c { session_expired_handled = true }) in
      if c.session_expired_handled then c else notify_session_expired (notify_session_toast e c1)

  -- refreshAccessTokenInStore
  stored_refresh : Settled Text × Client b World → Settled Text × Client b World
  stored_refresh (rejected e, c) = (rejected e, c)
  stored_refresh (resolved token, c) = (
    resolved token,
    with_auth (record c { session_expired_handled = false })
        (record c.auth { access_token = some token; is_initialized = true }),
  )

  refresh_access_token_in_store : Client b World → Settled Text × Client b World
  unfolding stored_refresh
  refresh_access_token_in_store c =
      let (answer, c1) = p.post_refresh c in stored_refresh (read_refresh answer, c1)

  abbrev Send : Type 0
  Send = Config → Client b World → Outcome × Client b World

  -- `again` is `http(originalRequest)`.
  after_refresh : Send → Config → Settled Text × Client b World → Outcome × Client b World
  after_refresh again config (resolved token, c) = again (authorize token config) c
  after_refresh again config (rejected e, c) =
      reject e (some session_expired) (handle_session_expired e c)

  -- catch (retryError): a rejection of the second try is made an `AppError` again.
  rewrap : Outcome × Client b World → Outcome × Client b World
  rewrap (refused e, c) = reject e none c
  rewrap (cancelled e, c) = reject (as_thrown e) none c
  rewrap (o, c) = (o, c)

  follow : Send → Failure → Plan → Client b World → Outcome × Client b World
  unfolding after_refresh rewrap
  follow again e pass_on c = (cancelled e, c)
  follow again e give_up c = reject (as_thrown e) none c
  follow again e (resend token config) c = again (authorize token config) c
  follow again e (refresh config) c = after_refresh again config (refresh_access_token_in_store c)
  follow again e (retry config) c = rewrap (again config c)

  -- The response interceptor, where the request failed.
  on_failure : Send → Failure → Client b World → Outcome × Client b World
  on_failure again e c =
      let e' = if e.is_cancel then e else repair p.decode p.parse_json e in
      let c1 = finish_loading c in follow again e' (plan c1.auth.access_token e') c1

  settle : Send → Config → Reply × Client b World → Outcome × Client b World
  settle again config (answered r, c) = on_answer config r c
  settle again config (failed e, c) = on_failure again e c

  -- One try: the request interceptor and the adapter.
  try_once : Config → Client b World → Config × Reply × Client b World
  try_once config c =
      let (prepared, c1) = on_request config c in
      let (reply, c2) = p.dispatch prepared c1 in (prepared, reply, c2)

  -- http(config); a unit of fuel is a request that is sent.
  pub send : ℕ → Config → Client b World → Outcome × Client b World
  send zero config c = (out_of_fuel, c)
  send (suc fuel) config c =
      let (prepared, reply, c1) = try_once config c in settle (send fuel) prepared (reply, c1)
