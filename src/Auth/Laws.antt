-- ===== src/Auth/Laws.antt =====
-- What a fetch of the user and the initialisation do to the session, whatever the server answers.
use notes_of_ashen.Base.{
  Text, Option, none, some, true, false, ◌==◌, ◌||◌, ◌&&◌, is_some, ◌≡◌, if◌then◌else◌, ◌+◌, refl,
  arith, inl, inr, Bool-cases,
}
use notes_of_ashen.Storage.{Backend}
use notes_of_ashen.Errors.{Thrown}
use notes_of_ashen.Client.{
  Client, User, has_token, with_auth, set_user, logout, notify_session_expired,
}
use notes_of_ashen.Auth.{
  FetchUserMode, silent, Settled, resolved, rejected, RefreshResponse, fetch_user, after_refresh,
  initialize_auth, execute_fetch_user, http_status_from_error, read_refresh, fetch_settled,
  store_effects, set_fetching, is_strict,
}

module _ {b : Backend} {World : Type 0}
    (get_current_user : Client b World → Settled User × Client b World) where
  -- However the request ends, and whatever other tasks did meanwhile, after a fetch of the user the
  -- store is initialised and no longer fetching.
  fetch_user_ends :
      (mode : FetchUserMode) (c : Client b World)
      → ((fetch_user get_current_user mode c).1.auth.is_initialized ≡ true)
        × ((fetch_user get_current_user mode c).1.auth.is_fetching ≡ false)
  unfolding fetch_user execute_fetch_user notify_session_expired set_user
  fetch_user_ends mode c = ground arith

  -- A silent fetch raises nothing: it resolves to a user or to none.
  pub fetch_user_silent :
      (c : Client b World)
      → (u : Option User) × ((fetch_user get_current_user silent c).0 ≡ resolved u)
  unfolding fetch_user execute_fetch_user
  fetch_user_silent c = elim (Bool-cases (has_token c.auth.access_token)) [
    | inl h ↦ rw h (settled (get_current_user (set_fetching true c)))
    | inr h ↦ (none, rw h)
  ]
    where
      settled :
          (a : Settled User × Client b World)
          → (u : Option User) × ((fetch_settled silent store_effects a).0 ≡ resolved u)
      settled (resolved u, c') = (some u, refl)
      settled (rejected e, c') = (none, refl)

  -- A fetch made with a token that the server refuses with 401 or 403 ends the session: the user and the token are
  -- gone and an installed handler is called once. After any other failure, a network error
  -- included, the session is what the other tasks left. In strict mode the error is raised as well.
  pub fetch_user-refused :
      (mode : FetchUserMode) (c c' : Client b World) (e : Thrown)
      → has_token c.auth.access_token ≡ true
      → get_current_user (with_auth c (record c.auth { is_fetching = true })) ≡ (rejected e, c')
      → let r = fetch_user get_current_user mode c in
        let refused = http_status_from_error e == 401 || http_status_from_error e == 403 in
        (r.1.auth.access_token ≡ (if refused then none else c'.auth.access_token))
        × (r.1.auth.user ≡ (if refused then none else c'.auth.user))
        × (r.1.handler_calls ≡ (
            if refused && c'.auth.on_session_expired
            then c'.handler_calls + 1
            else c'.handler_calls))
        × (r.0 ≡ (if is_strict mode then rejected e else resolved none))
  unfolding fetch_user execute_fetch_user set_user notify_session_expired
  fetch_user-refused mode c c' e h q = rw (h, q) (ground arith)

  -- Without a token no request is made: only the auth store and the drafts change, and nobody is
  -- signed in.
  fetch_user_signed_out :
      (mode : FetchUserMode) (c : Client b World)
      → has_token c.auth.access_token ≡ false
      → let r = fetch_user get_current_user mode c in
        (r.0 ≡ resolved none) × (r.1.auth.user ≡ none) × (r.1.world ≡ c.world) × (r.1.ui ≡ c.ui)
  unfolding fetch_user execute_fetch_user set_user
  fetch_user_signed_out mode c h = ground arith

  after_refresh_ends :
      (token : Settled Text) (c : Client b World)
      → (after_refresh get_current_user (token, c)).auth.is_initialized ≡ true
  unfolding after_refresh logout
  after_refresh_ends (rejected e) c = refl
  after_refresh_ends (resolved t) c =
      let c1 = with_auth c (record c.auth { access_token = some t; is_initialized = true }) in
      let (u, e) = fetch_user_silent c1 in rw (e, after_refresh) (fetch_user_ends silent c1).0

  module _ (post_refresh : Client b World → Settled RefreshResponse × Client b World) where
    -- The initialisation ends with an initialised store, whatever the server answers.
    initialize_auth_ends :
        (c : Client b World)
        → (initialize_auth get_current_user post_refresh c).auth.is_initialized ≡ true
    unfolding initialize_auth logout
    initialize_auth_ends c =
        elim (Bool-cases (has_token c.auth.access_token && is_some c.auth.user)) [
          | inl h ↦ rw h
          | inr h ↦ rw h (after_refresh_ends (read_refresh (post_refresh c).0) (post_refresh c).1)
        ]

    -- Every task of the auth store ends with an initialised store, whatever the server answers and
    -- other tasks did meanwhile; a fetch of the user is then under way no longer.
    pub tasks_end :
        (mode : FetchUserMode) (c : Client b World)
        → ((fetch_user get_current_user mode c).1.auth.is_initialized ≡ true)
          × ((fetch_user get_current_user mode c).1.auth.is_fetching ≡ false)
          × ((initialize_auth get_current_user post_refresh c).auth.is_initialized ≡ true)
    tasks_end mode c =
        let (ready, idle) = fetch_user_ends mode c in (ready, idle, initialize_auth_ends c)

    -- A visitor whose session the server does not renew is signed out by the initialisation.
    initialize_auth_refused :
        (c c' : Client b World) (answer : Settled RefreshResponse) (e : Thrown)
        → c.auth.user ≡ none
        → post_refresh c ≡ (answer, c')
        → read_refresh answer ≡ rejected e
        → let r = initialize_auth get_current_user post_refresh c in
          (r.auth.user ≡ none)
          × (r.auth.access_token ≡ none)
          × (r.auth.is_initialized ≡ true)
          × (r.auth.is_fetching ≡ false)
    unfolding initialize_auth logout
    initialize_auth_refused c c' answer e h q k =
        let signed_out : (has_token c.auth.access_token && is_some c.auth.user) ≡ false =
          ground arith in
        rw (signed_out, q, k) (ground arith)
