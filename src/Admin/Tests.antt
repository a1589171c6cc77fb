-- ===== src/Admin/Tests.antt =====
-- A backup that may start, a form that is dirty, a list of models, and an article that is not loaded.
use notes_of_ashen.Base.{
  ℕ, codes, [], ◌∷◌, text_eq, trim, none, some, true, false, not, ◌&&◌, ◌≡◌, ◌⊎◌, ◌↔◌, refl,
}
use notes_of_ashen.Errors.{plain_error}
use notes_of_ashen.Auth.{Settled, resolved, rejected}
use notes_of_ashen.Admin.Backup.{
  BackupRestoreOperationState, confirmation_mismatch, has_valid_backup_credentials,
  can_start_backup_export, can_start_backup_restore, can_start-has_valid,
  get_backup_restore_blocker_reason, count_backup_passphrase_characters,
}
use notes_of_ashen.Admin.AiSettings.{
  AiSettingsResp, AiSettingsDraft, openai, to_ai_settings_draft, is_ai_settings_dirty,
  build_update_ai_settings_req, is_ai_settings_dirty-build_update,
}
use notes_of_ashen.Admin.EditorAccess.{
  loading, error, ready, editor_access, error_access, loading_access,
  execute_article_editor_operation, resolve_article_editor_access,
  execute_article_editor_operation-access,
}

abbrev restoring : BackupRestoreOperationState
restoring = record {
  operation = record {
    credentials = record {
      current_password = codes "secret";
      passphrase = codes "correct horse battery";
    };
    is_busy = false;
  };
  has_file = true;
  confirmation = codes "replace";
}

-- A character beyond 0xFFFF counts once.
astral : count_backup_passphrase_characters (0xd83d ∷ 0xde00 ∷ b'a' ∷ []) ≡ 2
unfolding count_backup_passphrase_characters
astral = refl

mismatched : get_backup_restore_blocker_reason restoring ≡ some confirmation_mismatch
unfolding get_backup_restore_blocker_reason count_backup_passphrase_characters text_eq
mismatched = refl

can_start-has_valid_example :
    let ready =
      not restoring.operation.is_busy
      && has_valid_backup_credentials restoring.operation.credentials in
    (can_start_backup_export restoring.operation ≡ ready)
    × (can_start_backup_restore restoring
        ≡ (ready && (restoring.has_file && text_eq restoring.confirmation (codes "REPLACE"))))
can_start-has_valid_example = can_start-has_valid restoring

abbrev provider : AiSettingsResp
provider = record {
  enabled = true;
  api_format = codes "openai";
  base_url = codes "https://example.org";
  model = codes "m";
  first_byte_timeout_seconds = none;
  non_stream_timeout_seconds = some 300;
}

abbrev typed : AiSettingsDraft
typed = record {
  enabled = true;
  api_format = openai;
  base_url = codes " https://example.org";
  model = codes "m";
  api_key = codes " ";
  clear_api_key = false;
  first_byte_timeout_seconds = 60;
  non_stream_timeout_seconds = 300;
}

is_ai_settings_dirty-build_update_example :
    (is_ai_settings_dirty typed (some (to_ai_settings_draft provider)) ≡ false) ↔ (
      build_update_ai_settings_req typed
      ≡ build_update_ai_settings_req (to_ai_settings_draft provider))
is_ai_settings_dirty-build_update_example = is_ai_settings_dirty-build_update typed provider

clean : is_ai_settings_dirty typed (some (to_ai_settings_draft provider)) ≡ false
unfolding is_ai_settings_dirty to_ai_settings_draft text_eq trim
clean = refl

abbrev saving : ℕ → Settled ℕ × ℕ
saving n = (resolved n, 1)

execute_article_editor_operation-access_example :
    let r = execute_article_editor_operation true loading saving 0 in
    let access = resolve_article_editor_access true loading in
    (((true ≡ false) ⊎ (loading ≡ ready)) × (access ≡ editor_access) × (r ≡ saving 0))
    ⊎ ((true ≡ true)
        × (((loading ≡ loading) × (access ≡ loading_access))
            ⊎ ((loading ≡ error) × (access ≡ error_access)))
        × (r ≡ (rejected (plain_error (codes "Article baseline is not loaded yet")), 0)))
execute_article_editor_operation-access_example =
    execute_article_editor_operation-access true loading saving 0
