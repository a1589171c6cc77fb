-- ===== src/Http/Expiry.antt =====
-- The end of a session, and the failures that are passed on without another try.
use notes_of_ashen.Base.{
  ℕ, suc, ◌+◌, Text, codes, List, [], ◌∷◌, length, Option, none, some, true, false, ◌≡◌, refl,
  arith, if◌then◌else◌,
}
use notes_of_ashen.Storage.{Backend}
use notes_of_ashen.Errors.{
  Thrown, HttpErrorLike, app_error, AppError, is_get, has_code, to_app_error,
}
use notes_of_ashen.Errors.Locale.{Language, timeout_write, network}
use notes_of_ashen.Errors.Laws.{source_message-silent}
use notes_of_ashen.Ui.{push_toast}
use notes_of_ashen.Client.{Client, logout, read_language, notify_session_expired}
use notes_of_ashen.Http.Requests.{Config, should_network_retry, prepare}
use notes_of_ashen.Http.Failures.{
  Failure, plan, error_body, give_up, as_thrown, repair, is_unauthorized,
}
use notes_of_ashen.Http.{
  Platform, failed, Outcome, refused, send, settle, on_failure, follow, reject, try_once,
  on_request, finish_loading, handle_session_expired, notify_session_toast,
}

module _ {b : Backend} {World : Type 0} (p : Platform b World) where
  -- A refresh that fails signs the user out: the store has no user and no token, is initialised, and
  -- a toast is shown, once the guard lets the call pass.
  handle_session_expired_signs_out :
      (e : Thrown) (c : Client b World)
      → c.session_expired_handled ≡ false
      → let r = handle_session_expired p e c in
        (r.auth.user ≡ none)
        × (r.auth.access_token ≡ none)
        × (r.auth.is_initialized ≡ true)
        × (r.ui.toast_id ≡ c.ui.toast_id + 1)
        × (r.handler_calls
            ≡ (if c.auth.on_session_expired then c.handler_calls + 1 else c.handler_calls))
  unfolding handle_session_expired notify_session_toast push_toast logout read_language
      notify_session_expired
  handle_session_expired_signs_out e c h = ground arith

  -- The requests whose refresh has failed, one after the other.
  pub expire_each : List Thrown → Client b World → Client b World
  expire_each [] c = c
  expire_each (e ∷ es) c = expire_each es (handle_session_expired p e c)

  guard-handle :
      (e : Thrown) (c : Client b World)
      → c.session_expired_handled ≡ false
      → (handle_session_expired p e c).session_expired_handled ≡ false
  unfolding handle_session_expired notify_session_toast push_toast logout read_language
      notify_session_expired
  guard-handle e c h = ground arith

  -- The guard against a second notice does not hold: `logout` announces the change of the session,
  -- and the listener to that announcement resets the guard that was just set. When several requests
  -- learn that the session has ended, one after the other from an open guard, each of them shows a
  -- toast.
  pub expire_each-toasts :
      (es : List Thrown) (c : Client b World)
      → c.session_expired_handled ≡ false
      → (expire_each es c).ui.toast_id ≡ c.ui.toast_id + length es
  unfolding expire_each
  expire_each-toasts [] c h = omega arith
  expire_each-toasts (e ∷ es) c h = omega (
    arith,
    expire_each-toasts es (handle_session_expired p e c) (guard-handle e c h),
    (handle_session_expired_signs_out e c h).3,
  )

  plan-write :
      (t : Option Text) (e : Failure) (config : Config)
      → e.config ≡ some config
      → e.response ≡ none
      → is_get config.method ≡ false
      → e.is_cancel ≡ false
      → plan t e ≡ give_up
  unfolding plan should_network_retry is_unauthorized
  plan-write t e config named silent write kept = ground arith

  repair-silent : (e : Failure) → e.response ≡ none → repair p.decode p.parse_json e ≡ e
  unfolding repair
  repair-silent e silent = ground arith

  repaired-silent :
      (e : Failure)
      → e.response ≡ none
      → (if e.is_cancel then e else repair p.decode p.parse_json e) ≡ e
  repaired-silent e silent = ground (arith, repair-silent e silent)

  method-on_request :
      (config : Config) (c : Client b World) → (on_request p config c).0.method ≡ config.method
  unfolding on_request prepare
  method-on_request config c = refl

  on_failure-write :
      (again : Config → Client b World → Outcome × Client b World) (e : Failure) (config : Config)
      (c : Client b World)
      → e.config ≡ some config
      → e.response ≡ none
      → is_get config.method ≡ false
      → e.is_cancel ≡ false
      → on_failure p again e c ≡ reject p (as_thrown e) none (finish_loading p c)
  unfolding on_failure follow
  on_failure-write again e config c named silent write kept =
      rw (repaired-silent e silent)
        (rw (plan-write c.auth.access_token e config named silent write kept))

  source-write :
      (l : Language) (e : Failure) (config : Config)
      → e.config ≡ some config
      → e.response ≡ none
      → is_get config.method ≡ false
      → (to_app_error l (as_thrown e) none).source_message
        ≡ (if has_code (codes "ECONNABORTED") e.code then timeout_write else network)
  unfolding as_thrown
  source-write l e config named silent write =
      let h : HttpErrorLike = record {
        code = e.code;
        method = elim e.config [ none ↦ none | some c ↦ c.method ];
        response = elim e.response [
          | none ↦ none
          | some r ↦ some (record { status = some r.status; body = some (error_body r.payload) })
        ];
      } in
      ground (arith, source_message-silent l h none)

  -- A write that fails without an answer is never sent a second time: the caller's promise is
  -- rejected after one call of the adapter, and after a time-out it says that the server may still
  -- be at work.
  pub send_write_once :
      (fuel : ℕ) (config : Config) (c c' : Client b World) (e : Failure)
      → p.dispatch (on_request p config c).0 (on_request p config c).1 ≡ (failed e, c')
      → e.config ≡ some (on_request p config c).0
      → e.response ≡ none
      → e.is_cancel ≡ false
      → is_get config.method ≡ false
      → let (language, c1) = read_language (finish_loading p c') in
        let source = if has_code (codes "ECONNABORTED") e.code then timeout_write else network in
        (err : AppError) × (send p (suc fuel) config c ≡ (refused (app_error err), c1))
        × (err.source_message ≡ source)
  unfolding send try_once
  send_write_once fuel config c c' e q named silent kept write =
      let prepared = (on_request p config c).0 in
      let write' : is_get prepared.method ≡ false = rw (method-on_request config c) write in
      (
        to_app_error (read_language (finish_loading p c')).0 (as_thrown e) none,
        rw q (
            unfold settle reject in
            on_failure-write (send p fuel) e prepared c' named silent write' kept),
        source-write _ e prepared named silent write',
      )
