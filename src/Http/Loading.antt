-- ===== src/Http/Loading.antt =====
-- The count of requests under way, which drives the progress bar, is the same after a request as
-- before it, through every retry.
use notes_of_ashen.Base.{
  codes, truthy, ℕ, zero, suc, ◌+◌, ◌-◌, Text, Option, none, some, ◌≡◌, refl, ◌∙◌, arith,
  Bool-cases, inl, inr,
}
use notes_of_ashen.Storage.{Backend, get_item}
use notes_of_ashen.Errors.{Thrown}
use notes_of_ashen.Errors.Locale.{session_expired}
use notes_of_ashen.Ui.{push_toast, inc_loading, dec_loading}
use notes_of_ashen.Client.{Client, logout, read_language, notify_session_expired}
use notes_of_ashen.Auth.{Settled, resolved, rejected, read_refresh}
use notes_of_ashen.Http.Requests.{Config, authorize}
use notes_of_ashen.Http.Failures.{
  Failure, Response, Payload, as_thrown, Plan, pass_on, give_up, resend, refresh, retry,
  repair_payload,
}
use notes_of_ashen.Http.{
  id_or_empty, Platform, Reply, answered, failed, Outcome, out_of_fuel, delivered, downloaded,
  refused, cancelled, send, settle, on_failure, follow, after_refresh, rewrap, reject, try_once,
  on_request, visitor_id, on_answer, on_business_failure, finish_loading,
  refresh_access_token_in_store, stored_refresh, handle_session_expired, notify_session_toast,
}

-- What is waited for leaves the count as it is: other requests that start meanwhile also end, or are
-- not counted.
pub record KeepsLoading {b : Backend} {World : Type 0} (p : Platform b World) : Type 0 where
  pub dispatched :
      (config : Config) (c : Client b World)
      → (p.dispatch config c).1.ui.global_loading ≡ c.ui.global_loading
  pub refreshed :
      (c : Client b World) → (p.post_refresh c).1.ui.global_loading ≡ c.ui.global_loading
  pub named : (c : Client b World) → (p.fresh_id c).1.ui.global_loading ≡ c.ui.global_loading

module _ {b : Backend} {World : Type 0} (p : Platform b World) (law : KeepsLoading p) where
  abbrev loading : Client b World → ℕ
  loading c = c.ui.global_loading

  loading-visitor_id : (c : Client b World) → loading (visitor_id p c).1 ≡ loading c
  unfolding visitor_id
  loading-visitor_id c =
      let found = get_item b (codes "notesOfAshen.visitorId") c.storage in
      elim (Bool-cases (truthy (id_or_empty found.0))) [
        | inl e ↦ rw e
        | inr e ↦ rw e (law.named (record c { storage = found.1 }))
      ]

  loading-on_request :
      (config : Config) (c : Client b World) → loading (on_request p config c).1 ≡ loading c + 1
  unfolding on_request inc_loading
  loading-on_request config c = loading-visitor_id (record c { ui = inc_loading c.ui })

  loading-reject :
      (e : Thrown) (fb : Option Text) (c : Client b World) → loading (reject p e fb c).1 ≡ loading c
  unfolding reject read_language
  loading-reject e fb c = refl

  loading-handle :
      (e : Thrown) (c : Client b World) → loading (handle_session_expired p e c) ≡ loading c
  unfolding handle_session_expired notify_session_toast push_toast logout read_language
      notify_session_expired
  loading-handle e c = ground arith

  loading-refresh : (c : Client b World) → loading (refresh_access_token_in_store p c).1 ≡ loading c
  unfolding refresh_access_token_in_store
  loading-refresh c = go (read_refresh (p.post_refresh c).0) ∙ law.refreshed c
    where
      go :
          (r : Settled Text)
          → loading (stored_refresh p (r, (p.post_refresh c).1)).1 ≡ loading (p.post_refresh c).1
      go (resolved t) = refl
      go (rejected e) = refl

  loading-rewrap : (r : Outcome × Client b World) → loading (rewrap p r).1 ≡ loading r.1
  unfolding rewrap
  loading-rewrap (delivered v, c) = refl
  loading-rewrap (downloaded v, c) = refl
  loading-rewrap (refused v, c) = loading-reject v none c
  loading-rewrap (cancelled v, c) = loading-reject (as_thrown v) none c
  loading-rewrap (out_of_fuel, c) = refl

  loading-on_business_failure :
      (body : Payload) (c : Client b World) → loading (on_business_failure p body c).1 ≡ loading c
  unfolding on_business_failure read_language
  loading-on_business_failure body c = ground arith

  loading-on_answer :
      (config : Config) (r : Response) (c : Client b World)
      → loading (on_answer p config r c).1 ≡ loading c - 1
  unfolding on_answer dec_loading
  loading-on_answer config r c =
      ground (
        arith,
        loading-on_business_failure (repair_payload p.decode r.payload) (finish_loading p c),
      )

  module _ (again : Config → Client b World → Outcome × Client b World)
      (keeps : (config : Config) (c : Client b World)
        → loading (again config c).1 ≡ loading c) where
    loading-follow :
        (e : Failure) (pl : Plan) (c : Client b World)
        → loading (follow p again e pl c).1 ≡ loading c
    unfolding follow
    loading-follow e pass_on c = refl
    loading-follow e give_up c = loading-reject (as_thrown e) none c
    loading-follow e (resend t config) c = keeps (authorize t config) c
    loading-follow e (refresh config) c = go (refresh_access_token_in_store p c) ∙ loading-refresh c
      where
        go :
            (r : Settled Text × Client b World)
            → loading (after_refresh p again config r).1 ≡ loading r.1
        go (resolved t, c') = keeps (authorize t config) c'
        go (rejected e', c') =
            loading-reject e' (some session_expired) (handle_session_expired p e' c')
            ∙ loading-handle e' c'
    loading-follow e (retry config) c = loading-rewrap (again config c) ∙ keeps config c

    loading-settle :
        (config : Config) (r : Reply × Client b World)
        → loading (settle p again config r).1 ≡ loading r.1 - 1
    unfolding settle on_failure dec_loading
    loading-settle config (answered r, c) = loading-on_answer config r c
    loading-settle config (failed e, c) = loading-follow _ _ (finish_loading p c)

  -- Where what happens while a request is waited for leaves the count of requests under way as it
  -- is, so does the request itself, however it ends and however often it is sent again.
  pub loading-send :
      (fuel : ℕ) (config : Config) (c : Client b World)
      → (send p fuel config c).1.ui.global_loading ≡ c.ui.global_loading
  unfolding send try_once
  loading-send zero config c = refl
  loading-send (suc fuel) config c =
      let prepared = (on_request p config c).0 in
      let c1 = (on_request p config c).1 in
      omega (
        arith,
        loading-settle (send p fuel) (loading-send fuel) prepared (p.dispatch prepared c1),
        law.dispatched prepared c1,
        loading-on_request config c,
      )
