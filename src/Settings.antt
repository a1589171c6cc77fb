-- ===== src/Settings.antt =====
-- frontend/src/store/siteSettingsPolicy.ts and frontend/src/store/siteSettings.ts: the settings of
-- the site, with what is known of their loading. A request is a function on the store and on the
-- world, of any type, and may change both.
pub mod Laws
mod Tests
use notes_of_ashen.Base.{
  Text, codes, [], or_text, truthy, Option, none, some, get_or, Bool, true, false, not, ◌||◌,
  if◌then◌else◌,
}
use notes_of_ashen.Errors.{Thrown, app_error, http_error, plain_error, other_value}
use notes_of_ashen.Auth.{Settled, resolved, rejected}

pub data PublicFeatureRouteState : Type 0 where
  loading error not_found content : PublicFeatureRouteState

-- `TState`: the three fields of SiteSettingsOperationState, the others (`values`), and the world.
pub record OperationState (V World : Type 0) : Type 0 where
  pub values : V
  pub is_loading : Bool
  pub has_loaded : Bool
  pub load_error : Text
  pub world : World

abbrev pub can_write_site_settings : Bool → Bool
can_write_site_settings has_loaded = has_loaded

abbrev pub are_site_settings_controls_disabled : Bool → Bool → Bool
are_site_settings_controls_disabled has_loaded is_loading = not has_loaded || is_loading

-- error instanceof Error ? error.message : 'Failed to load site settings'. The message of an error
-- of axios itself, which the interceptors let through only for a cancellation, is a parameter.
unfoldable pub load_error_text : Text → Thrown → Text
load_error_text axios_message (app_error e) = e.message
load_error_text axios_message (http_error e) = axios_message
load_error_text axios_message (plain_error m) = m
load_error_text axios_message other_value = codes "Failed to load site settings"

abbrev pub Request : Type 0 → Type 0 → Type 0
Request D S = S → Settled D × S

-- finally
abbrev stop_loading : {V World : Type 0} → OperationState V World → OperationState V World
stop_loading s = record s { is_loading = false }

module _ {V D World : Type 0} where
  fetched : (D → V) → Text → Settled D × OperationState V World → OperationState V World
  unfolding load_error_text
  fetched to_state axios_message (resolved data_, s) = record s {
    values = to_state data_;
    has_loaded = true;
    load_error = [];
  }
  fetched to_state axios_message (rejected e, s) = record s {
    has_loaded = false;
    load_error = load_error_text axios_message e;
  }

  unfoldable pub execute_fetch_settings :
      Request D (OperationState V World)
      → (D → V)
      → Text
      → OperationState V World
      → OperationState V World
  unfolding fetched
  execute_fetch_settings request to_state axios_message s =
      stop_loading
        (fetched to_state axios_message (request (record s { is_loading = true; load_error = [] })))

  updated :
      (D → V) → Settled D × OperationState V World → Settled (Unit {0}) × OperationState V World
  updated to_state (resolved data_, s) =
      (resolved tt, stop_loading (record s { values = to_state data_; has_loaded = true }))
  updated to_state (rejected e, s) = (rejected e, stop_loading s)

  -- `has_loaded` is the argument that the caller reads from the store.
  unfoldable pub execute_update_settings :
      Bool
      → Request D (OperationState V World)
      → (D → V)
      → OperationState V World
      → Settled (Unit {0}) × OperationState V World
  unfolding updated
  execute_update_settings has_loaded request to_state s =
      if can_write_site_settings has_loaded
      then updated to_state (request (record s { is_loading = true }))
      else (rejected (plain_error (codes "site settings are not loaded yet")), s)

unfoldable pub resolve_public_feature_route : Bool → Text → Bool → PublicFeatureRouteState
resolve_public_feature_route has_loaded load_error enabled =
    if not has_loaded
    then (if truthy load_error then error else loading)
    else (if enabled then content else not_found)

-- frontend/src/types/index.ts
pub data HomeArticleLayout : Type 0 where
  standard alternating : HomeArticleLayout

pub data RagChatAccessLevel : Type 0 where
  guest user editor : RagChatAccessLevel

-- What the server answers. A field that an older server leaves out is `none`; a missing Boolean that
-- the source passes through `Boolean` is false.
pub record SiteSettings : Type 0 where
  pub registration_enabled : Bool
  pub registration_email_code_required : Option Bool
  pub home_article_layout : Option HomeArticleLayout
  pub home_cta_hidden : Option Bool
  pub site_title : Text
  pub site_description : Text
  pub site_keywords : Text
  pub site_base_url : Text
  pub projects_page_enabled : Option Bool
  pub projects_nav_hidden : Option Bool
  pub rag_chat_page_enabled : Option Bool
  pub rag_chat_nav_hidden : Option Bool
  pub rag_chat_access_level : Option RagChatAccessLevel

-- The fields of the store that the settings fill.
pub record SiteSettingsState : Type 0 where
  pub registration_enabled : Bool
  pub registration_email_code_required : Bool
  pub home_article_layout : HomeArticleLayout
  pub home_cta_hidden : Bool
  pub site_title : Text
  pub site_description : Text
  pub site_keywords : Text
  pub site_base_url : Text
  pub projects_page_enabled : Bool
  pub projects_nav_hidden : Bool
  pub rag_chat_page_enabled : Bool
  pub rag_chat_nav_hidden : Bool
  pub rag_chat_access_level : RagChatAccessLevel

abbrev default_site_title : Text
default_site_title = codes "Notes of Ashen"

abbrev default_site_description : Text
default_site_description = codes "A personal blog written slowly by the lamp of ink."

unfoldable pub to_site_settings_state : SiteSettings → SiteSettingsState
to_site_settings_state settings = record {
  registration_enabled = settings.registration_enabled;
  registration_email_code_required = get_or settings.registration_email_code_required true;
  home_article_layout = get_or settings.home_article_layout standard;
  home_cta_hidden = get_or settings.home_cta_hidden false;
  site_title = or_text settings.site_title default_site_title;
  site_description = settings.site_description;
  site_keywords = settings.site_keywords;
  site_base_url = settings.site_base_url;
  projects_page_enabled = get_or settings.projects_page_enabled false;
  projects_nav_hidden = get_or settings.projects_nav_hidden true;
  rag_chat_page_enabled = get_or settings.rag_chat_page_enabled false;
  rag_chat_nav_hidden = get_or settings.rag_chat_nav_hidden true;
  rag_chat_access_level = get_or settings.rag_chat_access_level guest;
}

abbrev initial_values : SiteSettingsState
initial_values = record {
  registration_enabled = true;
  registration_email_code_required = true;
  home_article_layout = standard;
  home_cta_hidden = false;
  site_title = default_site_title;
  site_description = default_site_description;
  site_keywords = codes "blog,notes,writing";
  site_base_url = [];
  projects_page_enabled = false;
  projects_nav_hidden = true;
  rag_chat_page_enabled = false;
  rag_chat_nav_hidden = true;
  rag_chat_access_level = guest;
}

module _ {World : Type 0} where
  abbrev pub initial_settings : World → OperationState SiteSettingsState World
  initial_settings w = record {
    values = initial_values;
    is_loading = false;
    has_loaded = false;
    load_error = [];
    world = w;
  }

  unfoldable pub fetch_settings :
      Request SiteSettings (OperationState SiteSettingsState World)
      → Text
      → OperationState SiteSettingsState World
      → OperationState SiteSettingsState World
  unfolding execute_fetch_settings
  fetch_settings request axios_message s =
      execute_fetch_settings request to_site_settings_state axios_message s

  unfoldable pub update_settings :
      Request SiteSettings (OperationState SiteSettingsState World)
      → OperationState SiteSettingsState World
      → Settled (Unit {0}) × OperationState SiteSettingsState World
  unfolding execute_update_settings
  update_settings request s = execute_update_settings s.has_loaded request to_site_settings_state s
