-- ===== src/Settings/Laws.antt =====
-- The settings of the site: what is shown before they are loaded, and what failures leave.
use notes_of_ashen.Base.{
  Text, codes, [], truthy, Bool, true, false, ◌≡◌, ◌⊎◌, get_or, if◌then◌else◌, Bool-cases, inl, inr,
  refl, arith,
}
use notes_of_ashen.Errors.{Thrown, plain_error}
use notes_of_ashen.Auth.{resolved, rejected}
use notes_of_ashen.Settings.{
  OperationState, Request, execute_fetch_settings, execute_update_settings, load_error_text,
  resolve_public_feature_route, content, error, loading, not_found, SiteSettings, SiteSettingsState,
  fetch_settings, update_settings, to_site_settings_state,
}

-- What a caller does to the store, each with the request that it makes.
pub data SettingsEvent (World : Type 0) : Type 0 where
  fetching updating :
      Request SiteSettings (OperationState SiteSettingsState World) → SettingsEvent World

module _ {World : Type 0} where
  -- Nothing is written before the settings are loaded: an update is rejected without a request and
  -- leaves the store as it is.
  update_settings_unloaded :
      (request : Request SiteSettings (OperationState SiteSettingsState World))
      (s : OperationState SiteSettingsState World)
      → s.has_loaded ≡ false
      → update_settings request s
        ≡ (rejected (plain_error (codes "site settings are not loaded yet")), s)
  unfolding update_settings execute_update_settings
  update_settings_unloaded request s h = rw h refl

module _ {World : Type 0} (axios_message : Text) where
  pub run :
      SettingsEvent World
      → OperationState SiteSettingsState World
      → OperationState SiteSettingsState World
  run (fetching request) s = fetch_settings request axios_message s
  run (updating request) s = (update_settings request s).1

  -- A fetch or an update that is made while nothing is loading ends with nothing loading, whether
  -- its request succeeds or fails.
  run_settles :
      (e : SettingsEvent World) (s : OperationState SiteSettingsState World)
      → s.is_loading ≡ false
      → (run e s).is_loading ≡ false
  unfolding run update_settings execute_update_settings fetch_settings execute_fetch_settings
  run_settles (fetching request) s h = refl
  run_settles (updating request) s h = ground arith

  -- A fetch that fails hides the pages of the optional features, whatever was loaded before: the
  -- page tells of the error, or still waits where the error has no text. The other settings stay.
  route-fetch_settings :
      (request : Request SiteSettings (OperationState SiteSettingsState World))
      (s s' : OperationState SiteSettingsState World) (e : Thrown) (enabled : Bool)
      → request (record s { is_loading = true; load_error = [] }) ≡ (rejected e, s')
      → let r = fetch_settings request axios_message s in
        ((resolve_public_feature_route r.has_loaded r.load_error enabled ≡ error)
          ⊎ (resolve_public_feature_route r.has_loaded r.load_error enabled ≡ loading))
        × (r.values ≡ s'.values)
  unfolding fetch_settings execute_fetch_settings resolve_public_feature_route
  route-fetch_settings request s s' e enabled h = rw h (
    elim (Bool-cases (truthy (load_error_text axios_message e))) [
      | inl k ↦ ground arith
      | inr k ↦ ground arith
    ],
    refl,
  )

  -- A fetch that succeeds shows the page of the projects or says that there is none, by the answer.
  -- An update that fails afterwards changes neither that nor any setting.
  pub route-update_settings :
      (fetch update : Request SiteSettings (OperationState SiteSettingsState World))
      (s s' : OperationState SiteSettingsState World) (answer : SiteSettings) (e : Thrown)
      → fetch (record s { is_loading = true; load_error = [] }) ≡ (resolved answer, s')
      → ((t : OperationState SiteSettingsState World) → update t ≡ (rejected e, t))
      → let r = fetch_settings fetch axios_message s in
        let u = update_settings update r in
        (u ≡ (rejected e, r))
        × (r.values ≡ to_site_settings_state answer)
        × (resolve_public_feature_route r.has_loaded r.load_error r.values.projects_page_enabled
            ≡ (if get_or answer.projects_page_enabled false then content else not_found))
  unfolding fetch_settings execute_fetch_settings update_settings execute_update_settings
      resolve_public_feature_route to_site_settings_state
  route-update_settings fetch update s s' answer e h k = rw h (rw k (refl, refl, ground arith))
