-- ===== src/Auth.antt =====
-- frontend/src/store/authPolicy.ts, frontend/src/utils/refresh.ts and the actions of
-- frontend/src/store/auth.ts that wait for a request. A request is a function on the client's state:
-- what other tasks do while it is waited for is part of its effect.
pub mod Laws
mod Tests
use notes_of_ashen.Base.{
  ℕ, zero, suc, Text, Option, none, some, Bool, true, false, not, ◌==◌, ◌||◌, ◌&&◌, is_some,
  or_text, truthy, if◌then◌else◌,
}
use notes_of_ashen.Storage.{Backend}
use notes_of_ashen.Errors.{
  Thrown, app_error, http_error, plain_error, other_value, HttpResponseLike,
}
use notes_of_ashen.Errors.Locale.{session_expired}
use notes_of_ashen.Client.{
  Client, User, has_token, with_auth, set_user, logout, notify_session_expired,
}

pub data FetchUserMode : Type 0 where
  silent strict : FetchUserMode

pub record FetchUserFailureDecision : Type 0 where
  pub clear_session : Bool
  pub notify_session_expired : Bool
  pub rethrow : Bool

-- `status > 0` at the top level, then `response.status`, else 0
unfoldable pub http_status_from_error : Thrown → ℕ
http_status_from_error (app_error e) = elim e.status [ none ↦ 0 | some n ↦ n ]
http_status_from_error (http_error e) = elim e.response [
  | none ↦ 0
  | some r ↦ elim r.status [ none ↦ 0 | some n ↦ n ]
]
http_status_from_error (plain_error m) = 0
http_status_from_error other_value = 0

abbrev pub is_strict : FetchUserMode → Bool
is_strict silent = false
is_strict strict = true

unfoldable pub resolve_fetch_user_failure : FetchUserMode → ℕ → FetchUserFailureDecision
resolve_fetch_user_failure mode status =
    let session_expired = status == 401 || status == 403 in
    record {
      clear_session = session_expired;
      notify_session_expired = session_expired;
      rethrow = is_strict mode;
    }

-- A settled promise.
pub data Settled {ℓ} (A : Type ℓ) : Type ℓ where
  resolved : A → Settled A
  rejected : Thrown → Settled A

-- `effects`, on a state `S`
pub record FetchUserEffects (U S : Type 0) : Type 0 where
  pub set_user : Option U → S → S
  pub set_access_token : Option Text → S → S
  pub set_initialized : S → S
  pub notify_session_expired : S → S

module _ {U S : Type 0} where
  fetch_failed : FetchUserMode → FetchUserEffects U S → Thrown → S → Settled (Option U) × S
  unfolding resolve_fetch_user_failure
  fetch_failed mode effects error s =
      let decision = resolve_fetch_user_failure mode (http_status_from_error error) in
      let s1 =
        if decision.clear_session
        then effects.set_access_token none (effects.set_user none s)
        else s in
      let s2 = effects.set_initialized s1 in
      let s3 = if decision.notify_session_expired then effects.notify_session_expired s2 else s2 in
      (if decision.rethrow then rejected error else resolved none, s3)

  fetch_settled : FetchUserMode → FetchUserEffects U S → Settled U × S → Settled (Option U) × S
  unfolding fetch_failed
  fetch_settled mode effects (resolved user, s) =
      (resolved (some user), effects.set_initialized (effects.set_user (some user) s))
  fetch_settled mode effects (rejected error, s) = fetch_failed mode effects error s

  unfoldable pub execute_fetch_user :
      FetchUserMode
      → Option Text
      → (S → Settled U × S)
      → FetchUserEffects U S
      → S
      → Settled (Option U) × S
  unfolding fetch_settled
  execute_fetch_user mode access_token request effects s =
      if has_token access_token
      then fetch_settled mode effects (request s)
      else (resolved none, effects.set_initialized (effects.set_user none s))

unfoldable pub should_navigate_after_auth : Option Text → Option User → Bool → Bool → Bool
should_navigate_after_auth access_token user is_initialized is_fetching =
    is_initialized && not is_fetching && has_token access_token && is_some user

-- The answer of POST /auth/refresh: the body's code, message and access token.
pub record RefreshResponse : Type 0 where
  pub status : ℕ
  pub code : ℕ
  pub message : Option Text
  pub access_token : Option Text

abbrev message_or : Option Text → Text → Text
message_or none d = d
message_or (some m) d = or_text m d

-- new AppError(res.data.message || ERROR_KEYS.sessionExpired, res.data.code, res.status)
refused : RefreshResponse → Thrown
refused r =
    let message = message_or r.message session_expired in
    app_error (record {
      message = message;
      code = some r.code;
      status = some r.status;
      source_message = message;
    })

-- refreshAccessToken, behind the request
unfoldable pub read_refresh : Settled RefreshResponse → Settled Text
unfolding refused
read_refresh (rejected error) = rejected error
read_refresh (resolved r) = elim r.access_token [
  | none ↦ rejected (refused r)
  | some t ↦ if not (r.code == 0) || not (truthy t) then rejected (refused r) else resolved t
]

module _ {b : Backend} {World : Type 0} where
  -- The effects that `fetchUser` passes on.
  abbrev store_effects : FetchUserEffects User (Client b World)
  store_effects = record {
    set_user = set_user;
    set_access_token = λ token c. with_auth c (record c.auth { access_token = token });
    set_initialized = λ c. with_auth c (record c.auth { is_initialized = true });
    notify_session_expired = notify_session_expired;
  }

  abbrev set_fetching : Bool → Client b World → Client b World
  set_fetching is c = with_auth c (record c.auth { is_fetching = is })

  -- The request of the user, which http.ts makes.
  module _ (get_current_user : Client b World → Settled User × Client b World) where
    unfoldable pub fetch_user :
        FetchUserMode → Client b World → Settled (Option User) × Client b World
    fetch_user mode c =
        let access_token = c.auth.access_token in
        let c1 = if has_token access_token then set_fetching true c else c in
        let (result, c2) = execute_fetch_user mode access_token get_current_user store_effects c1 in
        (result, set_fetching false c2)

    after_refresh : Settled Text × Client b World → Client b World
    after_refresh (rejected error, c) = logout c
    after_refresh (resolved token, c) =
        let c1 = with_auth c (record c.auth { access_token = some token; is_initialized = true }) in
        let (result, c2) = fetch_user silent c1 in
        elim result [ resolved user ↦ c2 | rejected error ↦ logout c2 ]

    -- The task of `initializeAuth`. The request of a new token is axios's own.
    unfoldable pub initialize_auth :
        (Client b World → Settled RefreshResponse × Client b World)
        → Client b World
        → Client b World
    unfolding after_refresh
    initialize_auth post_refresh c =
        if has_token c.auth.access_token && is_some c.auth.user
        then with_auth c (record c.auth { is_initialized = true })
        else (let (answer, c1) = post_refresh c in after_refresh (read_refresh answer, c1))
