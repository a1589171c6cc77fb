-- ===== src/Http/Fuel.antt =====
-- A request of the HTTP client comes to an end: it is sent three times at most.
use notes_of_ashen.Base.{
  ℕ, zero, suc, ◌+◌, ◌<◌, ◌≤◌, Text, List, Option, none, some, ◌≡◌, ◌≢◌, ◌⊎◌, refl, ap, arith,
  if◌then◌else◌,
}
use notes_of_ashen.Storage.{Backend}
use notes_of_ashen.Json.{Json}
use notes_of_ashen.Errors.{Thrown}
use notes_of_ashen.Errors.Locale.{session_expired}
use notes_of_ashen.Client.{Client}
use notes_of_ashen.Http.Requests.{Config, prepare, authorize}
use notes_of_ashen.Http.Failures.{
  Failure, repair, as_thrown, Response, Plan, pass_on, give_up, resend, refresh, retry, plan,
}
use notes_of_ashen.Auth.{Settled, resolved, rejected}
use notes_of_ashen.Http.{
  Platform, Reply, answered, failed, Outcome, out_of_fuel, delivered, downloaded, refused,
  cancelled, send, settle, on_failure, follow, after_refresh, rewrap, reject, try_once, on_request,
  on_answer, on_business_failure, refresh_access_token_in_store, handle_session_expired,
}

-- The second tries that a request has left: one for a new token, one for the network.
pub budget : Config → ℕ
budget c = (if c.retry then 0 else 1) + (if c.network_retry then 0 else 1)

pub budget-le-two : (c : Config) → budget c ≤ 2
unfolding budget
budget-le-two c = ground arith

budget-prepare : (t : Option Text) (v : Text) (c : Config) → budget (prepare t v c) ≡ budget c
unfolding budget prepare
budget-prepare t v c = refl

budget-authorize : (t : Text) (c : Config) → budget (authorize t c) ≡ budget c
unfolding budget authorize
budget-authorize t c = ground arith

-- The request that a plan sends again has fewer tries left than `n`.
pub Smaller : ℕ → Plan → Type 0
Smaller n (resend t c) = budget c < n
Smaller n (refresh c) = budget c < n
Smaller n (retry c) = budget c < n
Smaller n _ = Unit

plan-Smaller :
    (t : Option Text) (e : Failure) (c : Config)
    → (e.config ≡ none) ⊎ (e.config ≡ some c)
    → Smaller (budget c) (plan t e)
unfolding plan Smaller budget
plan-Smaller t e c h = ground arith

config-repair :
    (decode : List ℕ → Option Text) (parse : Text → Option Json) (e : Failure)
    → (repair decode parse e).config ≡ e.config
unfolding repair
config-repair decode parse e = ground arith

-- What axios says of a request that failed: the error names the configuration that was sent, if it
-- names one.
pub record NamesConfig {b : Backend} {World : Type 0} (p : Platform b World) : Type 0 where
  pub named :
      (config : Config) (c : Client b World) (e : Failure) (c' : Client b World)
      → p.dispatch config c ≡ (failed e, c')
      → (e.config ≡ none) ⊎ (e.config ≡ some config)

module _ {b : Backend} {World : Type 0} (p : Platform b World) where
  -- Following a plan makes the same calls of `again` and of `again'`, if they agree on requests with
  -- fewer tries left.
  follow_agrees :
      (n : ℕ) (again again' : Config → Client b World → Outcome × Client b World)
      → ((config : Config) (c : Client b World)
          → budget config < n
          → again config c ≡ again' config c)
      → (e : Failure) (pl : Plan) (c : Client b World) → Smaller n pl
      → follow p again e pl c ≡ follow p again' e pl c
  unfolding follow Smaller
  follow_agrees n again again' same e pass_on c h = refl
  follow_agrees n again again' same e give_up c h = refl
  follow_agrees n again again' same e (resend t config) c h =
      same (authorize t config) c (rw (budget-authorize t config) h)
  follow_agrees n again again' same e (refresh config) c h = go (refresh_access_token_in_store p c)
    where
      go :
          (r : Settled Text × Client b World)
          → after_refresh p again config r ≡ after_refresh p again' config r
      go (resolved t, c') = same (authorize t config) c' (rw (budget-authorize t config) h)
      go (rejected e', c') = refl
  follow_agrees n again again' same e (retry config) c h = ap (rewrap p) (same config c h)

  -- No plan runs out of fuel by itself.
  Ends : Outcome × Client b World → Type 0
  Ends r = r.0 ≢ out_of_fuel

  reject-Ends : (e : Thrown) (fb : Option Text) (c : Client b World) → Ends (reject p e fb c)
  unfolding Ends reject
  reject-Ends e fb c = cc

  rewrap-Ends : (r : Outcome × Client b World) → Ends r → Ends (rewrap p r)
  unfolding Ends rewrap reject
  rewrap-Ends (delivered v, c) h = h
  rewrap-Ends (downloaded v, c) h = h
  rewrap-Ends (refused v, c) h = cc
  rewrap-Ends (cancelled v, c) h = cc
  rewrap-Ends (out_of_fuel, c) h = h

  follow-Ends :
      (n : ℕ) (again : Config → Client b World → Outcome × Client b World)
      → ((config : Config) (c : Client b World) → budget config < n → Ends (again config c))
      → (e : Failure) (pl : Plan) (c : Client b World) → Smaller n pl
      → Ends (follow p again e pl c)
  unfolding follow Smaller
  follow-Ends n again ends e pass_on c h = unfold Ends in cc
  follow-Ends n again ends e give_up c h = reject-Ends (as_thrown e) none c
  follow-Ends n again ends e (resend t config) c h =
      ends (authorize t config) c (rw (budget-authorize t config) h)
  follow-Ends n again ends e (refresh config) c h = go (refresh_access_token_in_store p c)
    where
      go : (r : Settled Text × Client b World) → Ends (after_refresh p again config r)
      go (resolved t, c') = ends (authorize t config) c' (rw (budget-authorize t config) h)
      go (rejected e', c') = reject-Ends e' (some session_expired) (handle_session_expired p e' c')
  follow-Ends n again ends e (retry config) c h = rewrap-Ends (again config c) (ends config c h)

  on_answer-Ends :
      (config : Config) (r : Response) (c : Client b World) → Ends (on_answer p config r c)
  unfolding on_answer on_business_failure Ends
  on_answer-Ends config r c = ground arith

  budget-on_request :
      (config : Config) (c : Client b World) → budget (on_request p config c).0 ≡ budget config
  unfolding on_request
  budget-on_request config c = budget-prepare _ _ config

  -- The failure that the plan is made from.
  repaired : Failure → Failure
  repaired e = if e.is_cancel then e else repair p.decode p.parse_json e

  config-repaired : (e : Failure) → (repaired e).config ≡ e.config
  unfolding repaired
  config-repaired e = ground (arith, config-repair p.decode p.parse_json e)

  module _ (law : NamesConfig p) where
    plan-repaired :
        (config : Config) (c c' : Client b World) (e : Failure) (t : Option Text)
        → p.dispatch config c ≡ (failed e, c')
        → Smaller (budget config) (plan t (repaired e))
    plan-repaired config c c' e t q =
        plan-Smaller t (repaired e) config (rw (config-repaired e) (law.named config c e c' q))

    settle-Ends :
        (config : Config) (c : Client b World)
        (again : Config → Client b World → Outcome × Client b World)
        → ((next : Config) (d : Client b World) → budget next < budget config → Ends (again next d))
        → (r : Reply × Client b World) → p.dispatch config c ≡ r
        → Ends (settle p again config r)
    unfolding settle on_failure repaired
    settle-Ends config c again ends (answered r, c') q = on_answer-Ends config r c'
    settle-Ends config c again ends (failed e, c') q =
        follow-Ends (budget config) again ends (repaired e) _ _ (plan-repaired config c c' e _ q)

    -- With more fuel than second tries left, a request ends: it delivers, downloads, is rejected or
    -- is cancelled.
    pub send_ends :
        (fuel : ℕ) (config : Config) (c : Client b World)
        → budget config < fuel
        → (send p fuel config c).0 ≢ out_of_fuel
    unfolding send try_once Ends
    send_ends zero config c h = absurd (omega arith)
    send_ends (suc fuel) config c h =
        let prepared = (on_request p config c).0 in
        let c1 = (on_request p config c).1 in
        settle-Ends prepared c1 (send p fuel)
          (λ next d k. send_ends fuel next d (omega (arith, budget-on_request config c)))
          (p.dispatch prepared c1) refl

    settle_agrees :
        (config : Config) (c : Client b World)
        (again again' : Config → Client b World → Outcome × Client b World)
        → ((next : Config) (d : Client b World)
            → budget next < budget config
            → again next d ≡ again' next d)
        → (r : Reply × Client b World) → p.dispatch config c ≡ r
        → settle p again config r ≡ settle p again' config r
    unfolding settle on_failure repaired
    settle_agrees config c again again' same (answered r, c') q = refl
    settle_agrees config c again again' same (failed e, c') q =
        follow_agrees (budget config) again again' same (repaired e) _ _
          (plan-repaired config c c' e _ q)

    send_agrees :
        (fuel fuel' : ℕ) (config : Config) (c : Client b World)
        → budget config < fuel
        → budget config < fuel'
        → send p fuel config c ≡ send p fuel' config c
    unfolding send try_once
    send_agrees zero fuel' config c h h' = absurd (omega arith)
    send_agrees (suc fuel) zero config c h h' = absurd (omega arith)
    send_agrees (suc fuel) (suc fuel') config c h h' =
        let prepared = (on_request p config c).0 in
        let c1 = (on_request p config c).1 in
        settle_agrees prepared c1 (send p fuel) (send p fuel')
          (λ next d k.
            send_agrees fuel fuel' next d (omega (arith, budget-on_request config c))
              (omega (arith, budget-on_request config c)))
          (p.dispatch prepared c1) refl

    -- A request is sent three times at most, whatever the server answers: three units of fuel give
    -- the result that any larger amount gives, and that result is not the end of the fuel.
    pub send_three :
        (more : ℕ) (config : Config) (c : Client b World)
        → (send p (3 + more) config c ≡ send p 3 config c) × ((send p 3 config c).0 ≢ out_of_fuel)
    send_three more config c = (
      send_agrees (3 + more) 3 config c (omega (arith, budget-le-two config))
          (omega (arith, budget-le-two config)),
      send_ends 3 config c (omega (arith, budget-le-two config)),
    )
