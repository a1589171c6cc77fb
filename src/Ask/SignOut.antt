-- ===== src/Ask/SignOut.antt =====
-- When the request of a streamed answer signs the visitor out.
use notes_of_ashen.Base.{
  Text, Option, none, some, Bool, true, false, not, ◌||◌, ◌==◌, ◌≡◌, refl, ◌∙◌, arith, Bool-cases,
  inl, inr, if◌then◌else◌,
}
use notes_of_ashen.Storage.{Backend}
use notes_of_ashen.Client.{Client, User, with_auth, logout, notify_session_expired}
use notes_of_ashen.Auth.{Settled, resolved, rejected, RefreshResponse, read_refresh}
use notes_of_ashen.Ask.Request.{
  StreamResponse, retried, token_answered, first_answered, request_rag_stream,
}

module _ {b : Backend} {World : Type 0}
    (fetch : Option Text → Client b World → Settled StreamResponse × Client b World)
    (post_refresh : Client b World → Settled RefreshResponse × Client b World)
    (is_aborted : Client b World → Bool) where
  -- Requests that leave the user signed in.
  pub record KeepsUser : Type 0 where
    pub fetch_keeps : (t : Option Text) (c : Client b World) → (fetch t c).1.auth.user ≡ c.auth.user
    pub refresh_keeps : (c : Client b World) → (post_refresh c).1.auth.user ≡ c.auth.user

  abbrev pub is_unauthorized : Settled StreamResponse → Bool
  is_unauthorized (resolved r) = r.status == 401
  is_unauthorized (rejected e) = false

  -- The answer is 401, or the user is `u`.
  abbrev Keeps : Option User → Settled StreamResponse × Client b World → Type 0
  Keeps u (r, c) = is_unauthorized r ≡ false → c.auth.user ≡ u

  denied :
      (u : Option User) (r : StreamResponse) (c : Client b World)
      → (r.status == 401) ≡ true
      → Keeps u (resolved r, c)
  denied u r c e n = let no : ⊥ = ground (arith, e, n) in elim no [ ]

  final_keeps :
      (u : Option User) (r : StreamResponse) (c : Client b World)
      (other : Settled StreamResponse × Client b World)
      → c.auth.user ≡ u
      → ((r.status == 401) ≡ true → Keeps u other)
      → Keeps u (if not (r.status == 401) || is_aborted c then (resolved r, c) else other)
  final_keeps u r c other k f = elim (Bool-cases (r.status == 401)) [
    | inl e ↦ elim (Bool-cases (is_aborted c)) [
      | inl a ↦ rw (e, a) (λ n. k)
      | inr a ↦ rw (e, a) (f e)
    ]
    | inr e ↦ rw e (λ n. k)
  ]

  retried_keeps :
      (u : Option User) (initial : StreamResponse) (r : Settled StreamResponse) (c : Client b World)
      → (initial.status == 401) ≡ true
      → c.auth.user ≡ u
      → Keeps u (retried fetch post_refresh is_aborted initial (r, c))
  unfolding retried
  retried_keeps u initial (rejected e) c h k =
      denied u initial (notify_session_expired (logout c)) h
  retried_keeps u initial (resolved r) c h k =
      final_keeps u r c _ k (λ e. denied u r (notify_session_expired (logout c)) e)

  refreshed_keeps :
      KeepsUser
      → (u : Option User) (initial : StreamResponse) (r : Settled Text) (c : Client b World)
      → (initial.status == 401) ≡ true
      → c.auth.user ≡ u
      → Keeps u (token_answered fetch post_refresh is_aborted initial (r, c))
  unfolding token_answered
  refreshed_keeps keeps u initial (rejected e) c h k =
      denied u initial (notify_session_expired (logout c)) h
  refreshed_keeps keeps u initial (resolved token) c h k =
      let c' = with_auth c (record c.auth { access_token = some token; is_initialized = true }) in
      retried_keeps u initial (fetch (some token) c').0 (fetch (some token) c').1 h
        (keeps.fetch_keeps (some token) c' ∙ k)

  answered_keeps :
      KeepsUser
      → (u : Option User) (r : Settled StreamResponse) (c : Client b World) → c.auth.user ≡ u
      → Keeps u (first_answered fetch post_refresh is_aborted (r, c))
  unfolding first_answered
  answered_keeps keeps u (rejected e) c k = λ n. k
  answered_keeps keeps u (resolved r) c k = final_keeps u r c _ k (λ e.
      refreshed_keeps keeps u r (read_refresh (post_refresh c).0) (post_refresh c).1 e
        (keeps.refresh_keeps c ∙ k))

  -- Where what happens while a request is waited for leaves the user as it is, the visitor is signed
  -- out by the request of an answer only if what it gives is the answer 401: with any other answer,
  -- or none, the user is the one from before.
  pub request-keeps_user :
      KeepsUser
      → (c : Client b World)
      → is_unauthorized (request_rag_stream fetch post_refresh is_aborted c).0 ≡ false
      → (request_rag_stream fetch post_refresh is_aborted c).1.auth.user ≡ c.auth.user
  unfolding request_rag_stream
  request-keeps_user keeps c h =
      let t = c.auth.access_token in
      answered_keeps keeps c.auth.user (fetch t c).0 (fetch t c).1 (keeps.fetch_keeps t c) h

  -- The answer is not 401, or nobody is signed in.
  abbrev Ends : Settled StreamResponse × Client b World → Type 0
  Ends (r, c) = is_unauthorized r ≡ true → c.auth.user ≡ none

  sign_out-Ends :
      (r : Settled StreamResponse) (c : Client b World)
      → Ends (r, notify_session_expired (logout c))
  unfolding logout notify_session_expired
  sign_out-Ends r c n = refl

  final-Ends :
      ((c : Client b World) → is_aborted c ≡ false)
      → (r : StreamResponse) (c : Client b World) (other : Settled StreamResponse × Client b World)
      → Ends other
      → Ends (if not (r.status == 401) || is_aborted c then (resolved r, c) else other)
  final-Ends runs r c other f = elim (Bool-cases (r.status == 401)) [
    | inl e ↦ rw (e, runs c) f
    | inr e ↦ rw e (λ n. let no : ⊥ = ground (arith, e, n) in elim no [ ])
  ]

  retried-Ends :
      ((c : Client b World) → is_aborted c ≡ false)
      → (initial : StreamResponse) (r : Settled StreamResponse) (c : Client b World)
      → Ends (retried fetch post_refresh is_aborted initial (r, c))
  unfolding retried
  retried-Ends runs initial (rejected e) c = sign_out-Ends (resolved initial) c
  retried-Ends runs initial (resolved r) c =
      final-Ends runs r c (resolved r, notify_session_expired (logout c))
        (sign_out-Ends (resolved r) c)

  refreshed-Ends :
      ((c : Client b World) → is_aborted c ≡ false)
      → (initial : StreamResponse) (r : Settled Text) (c : Client b World)
      → Ends (token_answered fetch post_refresh is_aborted initial (r, c))
  unfolding token_answered
  refreshed-Ends runs initial (rejected e) c = sign_out-Ends (resolved initial) c
  refreshed-Ends runs initial (resolved token) c =
      let c' = with_auth c (record c.auth { access_token = some token; is_initialized = true }) in
      retried-Ends runs initial (fetch (some token) c').0 (fetch (some token) c').1

  answered-Ends :
      ((c : Client b World) → is_aborted c ≡ false)
      → (r : Settled StreamResponse) (c : Client b World)
      → Ends (first_answered fetch post_refresh is_aborted (r, c))
  unfolding first_answered
  answered-Ends runs (rejected e) c = λ n. let no : ⊥ = ground (arith, n) in elim no [ ]
  answered-Ends runs (resolved r) c =
      final-Ends runs r c _
        (refreshed-Ends runs r (read_refresh (post_refresh c).0) (post_refresh c).1)

  -- While nobody aborts it, a request that gives the answer 401 has signed the visitor out, whichever
  -- of its calls failed: no page goes on as signed in with an answer that says otherwise.
  pub unauthorized_signs_out :
      ((c : Client b World) → is_aborted c ≡ false)
      → (c : Client b World)
      → is_unauthorized (request_rag_stream fetch post_refresh is_aborted c).0 ≡ true
      → (request_rag_stream fetch post_refresh is_aborted c).1.auth.user ≡ none
  unfolding request_rag_stream
  unauthorized_signs_out runs c h =
      let t = c.auth.access_token in answered-Ends runs (fetch t c).0 (fetch t c).1 h
