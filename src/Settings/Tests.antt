-- ===== src/Settings/Tests.antt =====
-- The settings of a site against a server that answers, and against one that fails.
use notes_of_ashen.Base.{
  ℕ, ◌+◌, codes, [], none, some, true, false, ◌≡◌, refl, if◌then◌else◌, get_or,
}
use notes_of_ashen.Errors.{Thrown, plain_error}
use notes_of_ashen.Auth.{Settled, resolved, rejected}
use notes_of_ashen.Settings.{
  OperationState, SiteSettings, SiteSettingsState, fetch_settings, update_settings,
  initial_settings, resolve_public_feature_route, content, not_found, to_site_settings_state,
}
use notes_of_ashen.Settings.Laws.{route-update_settings}

abbrev Store : Type 0
Store = OperationState SiteSettingsState ℕ

abbrev answer : SiteSettings
answer = record {
  registration_enabled = false;
  registration_email_code_required = none;
  home_article_layout = none;
  home_cta_hidden = some true;
  site_title = [];
  site_description = codes "notes";
  site_keywords = [];
  site_base_url = [];
  projects_page_enabled = some true;
  projects_nav_hidden = some false;
  rag_chat_page_enabled = none;
  rag_chat_nav_hidden = none;
  rag_chat_access_level = none;
}

abbrev down : Thrown
down = plain_error (codes "down")

abbrev answering : Store → Settled SiteSettings × Store
answering s = (resolved answer, record s { world = s.world + 1 })

abbrev failing : Store → Settled SiteSettings × Store
failing s = (rejected down, s)

abbrev start : Store
start = initial_settings 0

titled : (fetch_settings answering [] start).values.site_title ≡ codes "Notes of Ashen"
unfolding fetch_settings to_site_settings_state
titled = refl

route-update_settings_example :
    let r = fetch_settings answering [] start in
    let u = update_settings failing r in
    (u ≡ (rejected down, r))
    × (r.values ≡ to_site_settings_state answer)
    × (resolve_public_feature_route r.has_loaded r.load_error r.values.projects_page_enabled
        ≡ (if get_or answer.projects_page_enabled false then content else not_found))
route-update_settings_example =
    route-update_settings [] answering failing start (record start { is_loading = true; world = 1 })
      answer down refl (λ t. refl)
