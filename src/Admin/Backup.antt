-- ===== src/Admin/Backup.antt =====
-- frontend/src/pages/admin/backupPolicy.ts: why a backup cannot be exported or restored.
use notes_of_ashen.Base.{
  ℕ, suc, Text, codes, [], ◌∷◌, text_eq, text_eq_iff, truthy, Option, none, some, Bool, true, false,
  ◌&&◌, ltb, leb, if◌then◌else◌, is_some, not, ◌≡◌, refl, arith,
}

abbrev backup_passphrase_min_length : ℕ
backup_passphrase_min_length = 12

abbrev backup_passphrase_max_length : ℕ
backup_passphrase_max_length = 128

pub record BackupCredentialsState : Type 0 where
  pub current_password : Text
  pub passphrase : Text

pub data BackupBlockerReason : Type 0 where
  busy current_password_missing passphrase_missing passphrase_too_short passphrase_too_long :
      BackupBlockerReason
  file_missing confirmation_missing confirmation_mismatch : BackupBlockerReason

pub record BackupOperationState : Type 0 where
  pub credentials : BackupCredentialsState
  pub is_busy : Bool

-- Of the file only whether one is chosen counts.
pub record BackupRestoreOperationState : Type 0 where
  pub operation : BackupOperationState
  pub has_file : Bool
  pub confirmation : Text

abbrev is_high_surrogate : ℕ → Bool
is_high_surrogate c = leb 0xd800 c && leb c 0xdbff

abbrev is_low_surrogate : ℕ → Bool
is_low_surrogate c = leb 0xdc00 c && leb c 0xdfff

-- Array.from(value).length: a pair of surrogates is one character.
unfoldable pub count_backup_passphrase_characters : Text → ℕ
count_backup_passphrase_characters [] = 0
count_backup_passphrase_characters (c ∷ []) = 1
count_backup_passphrase_characters (c ∷ d ∷ s) =
    let paired = count_backup_passphrase_characters s in
    let single = count_backup_passphrase_characters (d ∷ s) in
    if is_high_surrogate c && is_low_surrogate d then suc paired else suc single

unfoldable pub is_backup_passphrase_valid : Text → Bool
is_backup_passphrase_valid value =
    let n = count_backup_passphrase_characters value in
    leb backup_passphrase_min_length n && leb n backup_passphrase_max_length

unfoldable pub has_valid_backup_credentials : BackupCredentialsState → Bool
unfolding is_backup_passphrase_valid
has_valid_backup_credentials c =
    truthy c.current_password && is_backup_passphrase_valid c.passphrase

unfoldable pub get_credentials_blocker_reason : BackupCredentialsState → Option BackupBlockerReason
get_credentials_blocker_reason c =
    let n = count_backup_passphrase_characters c.passphrase in
    if not (truthy c.current_password)
    then some current_password_missing
    else if not (truthy c.passphrase)
    then some passphrase_missing
    else if ltb n backup_passphrase_min_length
    then some passphrase_too_short
    else if ltb backup_passphrase_max_length n
    then some passphrase_too_long
    else none

unfoldable pub get_backup_export_blocker_reason : BackupOperationState → Option BackupBlockerReason
unfolding get_credentials_blocker_reason
get_backup_export_blocker_reason s =
    if s.is_busy then some busy else get_credentials_blocker_reason s.credentials

unfoldable pub get_backup_restore_blocker_reason :
    BackupRestoreOperationState → Option BackupBlockerReason
unfolding get_backup_export_blocker_reason
get_backup_restore_blocker_reason s = elim (get_backup_export_blocker_reason s.operation) [
  | some r ↦ some r
  | none ↦
      if not s.has_file
      then some file_missing
      else if not (truthy s.confirmation)
      then some confirmation_missing
      else if not (text_eq s.confirmation (codes "REPLACE"))
      then some confirmation_mismatch
      else none
]

unfoldable pub can_start_backup_export : BackupOperationState → Bool
unfolding get_backup_export_blocker_reason
can_start_backup_export s = not (is_some (get_backup_export_blocker_reason s))

unfoldable pub can_start_backup_restore : BackupRestoreOperationState → Bool
unfolding get_backup_restore_blocker_reason
can_start_backup_restore s = not (is_some (get_backup_restore_blocker_reason s))

-- What is wrong where a reason is given.
pub applies : BackupBlockerReason → BackupRestoreOperationState → Bool
applies busy s = s.operation.is_busy
applies current_password_missing s = not (truthy s.operation.credentials.current_password)
applies passphrase_missing s = not (truthy s.operation.credentials.passphrase)
applies passphrase_too_short s =
    ltb (count_backup_passphrase_characters s.operation.credentials.passphrase) 12
applies passphrase_too_long s =
    ltb 128 (count_backup_passphrase_characters s.operation.credentials.passphrase)
applies file_missing s = not s.has_file
applies confirmation_missing s = not (truthy s.confirmation)
applies confirmation_mismatch s = not (text_eq s.confirmation (codes "REPLACE"))

empty_count : (p : Text) → truthy p ≡ false → count_backup_passphrase_characters p ≡ 0
unfolding count_backup_passphrase_characters
empty_count [] h = refl
empty_count (c ∷ s) h = ground arith

credentials_lem :
    (c : BackupCredentialsState)
    → is_some (get_credentials_blocker_reason c) ≡ not (has_valid_backup_credentials c)
unfolding get_credentials_blocker_reason has_valid_backup_credentials is_backup_passphrase_valid
credentials_lem c = ground (arith, empty_count c.passphrase)

-- An export may start exactly when nothing is under way and the credentials are valid; a restore
-- when moreover a file is chosen and the confirmation is the word REPLACE.
pub can_start-has_valid :
    (s : BackupRestoreOperationState)
    → let ready = not s.operation.is_busy && has_valid_backup_credentials s.operation.credentials in
      (can_start_backup_export s.operation ≡ ready)
      × (can_start_backup_restore s
          ≡ (ready && (s.has_file && text_eq s.confirmation (codes "REPLACE"))))
unfolding can_start_backup_export can_start_backup_restore get_backup_restore_blocker_reason
    get_backup_export_blocker_reason
can_start-has_valid s =
    ground
      (arith, credentials_lem s.operation.credentials, text_eq_iff s.confirmation (codes "REPLACE"))

-- The reason that is given for a blocked restore is one that applies.
get_backup_restore_blocker_reason-applies :
    (s : BackupRestoreOperationState) (r : BackupBlockerReason)
    → get_backup_restore_blocker_reason s ≡ some r
    → applies r s ≡ true
unfolding get_backup_restore_blocker_reason get_backup_export_blocker_reason applies
    get_credentials_blocker_reason
get_backup_restore_blocker_reason-applies s r h = ground arith
