-- ===== src/Admin/AiSettings.antt =====
-- frontend/src/pages/admin/aiSettingsPolicy.ts: the form of the AI provider's settings, and the
-- requests that are made of it. Seconds are natural numbers.
use notes_of_ashen.Base.{
  ℕ, Text, codes, [], List, ◌∷◌, ◌++◌, map, filter, any, trim, truthy, text_eq, text_eq_iff, Option,
  none, some, get_or, Bool, true, false, not, ◌||◌, ltb, ◌==◌, if◌then◌else◌, ◌≡◌, ◌↔◌, refl, arith,
}

pub data AiApiFormat : Type 0 where
  openai anthropic : AiApiFormat

pub data AiSettingsOperation : Type 0 where
  save models test : AiSettingsOperation

-- A format that an older or a newer server answers is a text.
pub record AiSettingsResp : Type 0 where
  pub enabled : Bool
  pub api_format : Text
  pub base_url : Text
  pub model : Text
  pub first_byte_timeout_seconds : Option ℕ
  pub non_stream_timeout_seconds : Option ℕ

pub record AiSettingsDraft : Type 0 where
  pub enabled : Bool
  pub api_format : AiApiFormat
  pub base_url : Text
  pub model : Text
  pub api_key : Text
  pub clear_api_key : Bool
  pub first_byte_timeout_seconds : ℕ
  pub non_stream_timeout_seconds : ℕ

pub record AiConnectionReq : Type 0 where
  pub api_format : AiApiFormat
  pub base_url : Text
  pub api_key : Option Text
  pub first_byte_timeout_seconds : ℕ
  pub non_stream_timeout_seconds : ℕ

pub record AiModelTestReq : Type 0 where
  pub connection : AiConnectionReq
  pub model : Text

pub record UpdateAiSettingsReq : Type 0 where
  pub enabled : Bool
  pub api_format : AiApiFormat
  pub base_url : Text
  pub model : Text
  pub api_key : Option Text
  pub clear_api_key : Bool
  pub first_byte_timeout_seconds : ℕ
  pub non_stream_timeout_seconds : ℕ

abbrev same_format : AiApiFormat → AiApiFormat → Bool
same_format openai openai = true
same_format anthropic anthropic = true
same_format _ _ = false

abbrev same_bool : Bool → Bool → Bool
same_bool true b = b
same_bool false b = not b

unfoldable pub to_ai_settings_draft : AiSettingsResp → AiSettingsDraft
to_ai_settings_draft settings = record {
  enabled = settings.enabled;
  api_format = if text_eq settings.api_format (codes "anthropic") then anthropic else openai;
  base_url = settings.base_url;
  model = settings.model;
  api_key = [];
  clear_api_key = false;
  first_byte_timeout_seconds = get_or settings.first_byte_timeout_seconds 60;
  non_stream_timeout_seconds = get_or settings.non_stream_timeout_seconds 600;
}

unfoldable pub is_ai_settings_timeout_invalid : AiSettingsDraft → Bool
is_ai_settings_timeout_invalid draft =
    ltb draft.first_byte_timeout_seconds 1
    || ltb 1800 draft.first_byte_timeout_seconds
    || ltb draft.non_stream_timeout_seconds draft.first_byte_timeout_seconds
    || ltb 1800 draft.non_stream_timeout_seconds

unfoldable pub is_ai_settings_dirty : AiSettingsDraft → Option AiSettingsDraft → Bool
is_ai_settings_dirty draft none = false
is_ai_settings_dirty draft (some baseline) =
    not (same_bool draft.enabled baseline.enabled)
    || not (same_format draft.api_format baseline.api_format)
    || not (text_eq (trim draft.base_url) (trim baseline.base_url))
    || not (text_eq (trim draft.model) (trim baseline.model))
    || truthy (trim draft.api_key)
    || not (same_bool draft.clear_api_key baseline.clear_api_key)
    || not (draft.first_byte_timeout_seconds == baseline.first_byte_timeout_seconds)
    || not (draft.non_stream_timeout_seconds == baseline.non_stream_timeout_seconds)

unfoldable pub has_ai_connection_identity_changed : AiSettingsDraft → AiSettingsDraft → Bool
has_ai_connection_identity_changed previous next =
    not (same_format previous.api_format next.api_format)
    || not (text_eq (trim previous.base_url) (trim next.base_url))
    || not (text_eq previous.api_key next.api_key)
    || not (same_bool previous.clear_api_key next.clear_api_key)

-- { apiKey } where there is one, and {}
abbrev when_key : Text → Option Text
when_key [] = none
when_key (c ∷ s) = some (c ∷ s)

unfoldable pub optional_api_key : Text → Option Text
optional_api_key api_key = when_key (trim api_key)

unfoldable pub build_ai_connection_req : AiSettingsDraft → AiConnectionReq
unfolding optional_api_key
build_ai_connection_req draft = record {
  api_format = draft.api_format;
  base_url = trim draft.base_url;
  api_key = optional_api_key draft.api_key;
  first_byte_timeout_seconds = draft.first_byte_timeout_seconds;
  non_stream_timeout_seconds = draft.non_stream_timeout_seconds;
}

unfoldable pub build_ai_model_test_req : AiSettingsDraft → AiModelTestReq
unfolding build_ai_connection_req
build_ai_model_test_req draft = record {
  connection = build_ai_connection_req draft;
  model = trim draft.model;
}

unfoldable pub build_update_ai_settings_req : AiSettingsDraft → UpdateAiSettingsReq
unfolding optional_api_key
build_update_ai_settings_req draft = record {
  enabled = draft.enabled;
  api_format = draft.api_format;
  base_url = trim draft.base_url;
  model = trim draft.model;
  api_key = optional_api_key draft.api_key;
  clear_api_key = draft.clear_api_key;
  first_byte_timeout_seconds = draft.first_byte_timeout_seconds;
  non_stream_timeout_seconds = draft.non_stream_timeout_seconds;
}

-- [...new Set(texts)]: `seen` are the texts that stand already.
unfoldable pub unique : List Text → List Text → List Text
unique seen [] = seen
unique seen (t ∷ ts) = unique (if any (λ s. text_eq s t) seen then seen else seen ++ t ∷ []) ts

unfoldable pub normalize_ai_models : List Text → List Text
unfolding unique
normalize_ai_models names = unique [] (filter truthy (map trim names))

abbrev pub can_start_ai_settings_operation : Option AiSettingsOperation → Bool
can_start_ai_settings_operation none = true
can_start_ai_settings_operation (some operation) = false

trim_empty : trim [] ≡ []
unfolding trim
trim_empty = refl

same_bool_iff : (a b : Bool) → (same_bool a b ≡ true) ↔ (a ≡ b)
same_bool_iff a b = ground arith

same_format_iff : (a b : AiApiFormat) → (same_format a b ≡ true) ↔ (a ≡ b)
same_format_iff a b = ground arith

when_key_iff : (t : Text) → (truthy t ≡ false) ↔ (when_key t ≡ none)
when_key_iff t = ground arith

-- A form is dirty exactly when saving it would send another request than saving the settings as
-- they were loaded; those have no key of their own in the form.
pub is_ai_settings_dirty-build_update :
    (draft : AiSettingsDraft) (settings : AiSettingsResp)
    → let baseline = to_ai_settings_draft settings in
      (is_ai_settings_dirty draft (some baseline) ≡ false)
      ↔ (build_update_ai_settings_req draft ≡ build_update_ai_settings_req baseline)
unfolding is_ai_settings_dirty build_update_ai_settings_req to_ai_settings_draft optional_api_key
is_ai_settings_dirty-build_update draft settings =
    let b = to_ai_settings_draft settings in
    ground (
      arith,
      same_bool_iff draft.enabled b.enabled,
      same_format_iff draft.api_format b.api_format,
      text_eq_iff (trim draft.base_url) (trim b.base_url),
      text_eq_iff (trim draft.model) (trim b.model),
      when_key_iff (trim draft.api_key),
      trim_empty,
    )
