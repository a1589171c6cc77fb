-- ===== src/Translations/EnG.antt =====
-- frontend/src/i18n.ts: part 7 of 7 of the dictionary `en`, in the order of the source.
use notes_of_ashen.Base.{List, [], ◌∷◌}
use notes_of_ashen.Translations.Lines.{Line, line}

unfoldable pub en_g : List Line
en_g =
    line "error.boundaryDesc"
      "This is usually caused by unusual content or a temporary glitch. Refreshing the page often fixes it."
    ∷ line "error.boundaryReload" "Reload page"
    ∷ line "common.backToTop" "Back to top"
    ∷ line "validation.required" "This field is required"
    ∷ line "validation.minLength" "At least {n} characters"
    ∷ line "validation.maxLength" "At most {n} characters"
    ∷ line "validation.email" "Invalid email"
    ∷ line "validation.passwordMismatch" "Passwords do not match"
    ∷ line "validation.accountPattern" "Account may only contain letters, numbers and underscores"
    ∷ line "admin.media" "Media"
    ∷ line "admin.analytics" "Analytics"
    ∷ line "admin.system" "System Tools"
    ∷ line "reading.words" "{count} words"
    ∷ line "reading.minutes" "About {count} min"
    ∷ line "share.native" "Share"
    ∷ line "share.copy" "Copy link"
    ∷ line "share.copied" "Link copied"
    ∷ line "share.failed" "Failed to copy link"
    ∷ line "taxonomy.articleCount" "Articles"
    ∷ line "search.suggestions" "Suggestions"
    ∷ line "search.suggestionArticle" "Article"
    ∷ line "search.suggestionCategory" "Category"
    ∷ line "search.suggestionTag" "Tag"
    ∷ line "search.suggestionUnknown" "Other"
    ∷ line "search.recent" "Recent searches"
    ∷ line "search.clearRecent" "Clear history"
    ∷ line "search.removeRecent" "Remove search"
    ∷ line "search.taxonomyFilters" "Categories and tags"
    ∷ line "media.title" "Media Library"
    ∷ line "media.subtitle" "Upload and reuse images in articles and projects."
    ∷ line "media.uploadHint" "Supported formats: JPG/JPEG, PNG, GIF, WebP, and AVIF."
    ∷ line "media.upload" "Upload image"
    ∷ line "media.uploading" "Uploading…"
    ∷ line "media.search" "Search filenames or alt text"
    ∷ line "media.alt" "Alternative text"
    ∷ line "media.copy" "Copy URL"
    ∷ line "media.choose" "Choose from media"
    ∷ line "media.insert" "Insert into content"
    ∷ line "media.useCover" "Use as cover"
    ∷ line "media.empty" "No media yet"
    ∷ line "media.loadError" "Failed to load media"
    ∷ line "media.uploadError" "Failed to upload media"
    ∷ line "media.updateError" "Failed to save media alternative text"
    ∷ line "media.deleteError" "Failed to delete media"
    ∷ line "media.confirmDelete" "Delete this unreferenced media file?"
    ∷ line "media.deleteCacheNotice"
        "This removes the origin file. Older CDN copies may remain accessible until the site administrator purges them; downloaded copies cannot be recalled."
    ∷ line "analytics.title" "Content Analytics"
    ∷ line "analytics.subtitle" "Explore traffic, sources and article performance."
    ∷ line "analytics.from" "From"
    ∷ line "analytics.to" "To"
    ∷ line "analytics.apply" "Apply"
    ∷ line "analytics.range7" "Last 7 days"
    ∷ line "analytics.range30" "Last 30 days"
    ∷ line "analytics.range90" "Last 90 days"
    ∷ line "analytics.pv" "Page views (PV)"
    ∷ line "analytics.uv" "Unique visitors (UV)"
    ∷ line "analytics.likes" "New likes"
    ∷ line "analytics.topPages" "Top pages"
    ∷ line "analytics.topArticles" "Article performance"
    ∷ line "analytics.referers" "Referrers"
    ∷ line "analytics.change" "{value}% vs previous period"
    ∷ line "analytics.noComparison" "No previous-period data"
    ∷ line "analytics.loadError" "Failed to load analytics"
    ∷ line "system.title" "System Tools"
    ∷ line "system.subtitle" "Dependency health, encrypted backup and full-site restore."
    ∷ line "system.health" "Dependency Health"
    ∷ line "system.refresh" "Check now"
    ∷ line "system.checkedAt" "Checked at {time}"
    ∷ line "system.status.up" "Up"
    ∷ line "system.status.down" "Down"
    ∷ line "system.status.disabled" "Disabled"
    ∷ line "system.healthError" "Failed to load system health"
    ∷ line "system.overallHealthy" "All systems operational"
    ∷ line "system.overallDegraded" "Some dependencies are down"
    ∷ line "system.disabledDetail" "This dependency is disabled"
    ∷ line "backup.title" "Encrypted Backup & Restore"
    ∷ line "backup.currentPassword" "Current admin password"
    ∷ line "backup.passphrase" "Archive passphrase (12+ characters)"
    ∷ line "backup.currentPasswordHint"
        "Your current signed-in administrator password is verified for export and restore."
    ∷ line "backup.passphraseLength"
        "{count} characters entered; the archive passphrase must contain {min}–{max} characters."
    ∷ line "backup.passphraseTooShort" "The archive passphrase needs at least {min} characters."
    ∷ line "backup.passphraseTooLong" "The archive passphrase can contain at most {max} characters."
    ∷ line "backup.fileInvalid" "Choose a .noa-backup file."
    ∷ line "backup.fileSelected" "Selected: {name}"
    ∷ line "backup.noFileSelected" "No backup file selected."
    ∷ line "backup.chooseFile" "Choose backup file"
    ∷ line "backup.replaceFile" "Replace backup file"
    ∷ line "backup.removeFile" "Remove file"
    ∷ line "backup.export" "Export encrypted backup"
    ∷ line "backup.exporting" "Exporting…"
    ∷ line "backup.exportCardTitle" "Export encrypted backup"
    ∷ line "backup.exportCardDescription"
        "Create an encrypted .noa-backup file for a full-site restore."
    ∷ line "backup.restore" "Replace entire site"
    ∷ line "backup.restoring" "Restoring…"
    ∷ line "backup.restoreCardTitle" "Replace entire site"
    ∷ line "backup.restoreCardDescription"
        "This cannot be undone. Confirm the backup file and replacement phrase."
    ∷ line "backup.file" "Choose a .noa-backup file"
    ∷ line "backup.warning"
        "Restore replaces users, content, settings and media, and clears sessions, logs, traffic and the AI key."
    ∷ line "backup.warningReplace"
        "Users, content, settings and media on the target site will be replaced."
    ∷ line "backup.warningStats"
        "Target logs, traffic and visitor-deduplication data will be cleared."
    ∷ line "backup.warningAI" "AI will be disabled and the previous API key will not be restored."
    ∷ line "backup.warningLogout"
        "All sessions are invalidated after restore and everyone must sign in again."
    ∷ line "backup.confirm" "Replace the entire site? You will need to sign in again."
    ∷ line "backup.confirmation" "Type REPLACE to confirm replacement"
    ∷ line "backup.confirmationHint"
        "The confirmation is case-sensitive and must exactly match REPLACE."
    ∷ line "backup.confirmationError" "Type REPLACE to confirm the full-site replacement"
    ∷ line "backup.blocker.busy" "A backup operation is already in progress. Please wait."
    ∷ line "backup.blocker.currentPasswordMissing"
        "Enter your current administrator password first."
    ∷ line "backup.blocker.passphraseMissing" "Enter an archive passphrase first."
    ∷ line "backup.blocker.passphraseTooShort"
        "The archive passphrase needs at least {min} characters."
    ∷ line "backup.blocker.passphraseTooLong"
        "The archive passphrase can contain at most {max} characters."
    ∷ line "backup.blocker.fileMissing" "Choose a .noa-backup file first."
    ∷ line "backup.blocker.confirmationMissing" "Type REPLACE to confirm the full-site replacement."
    ∷ line "backup.blocker.confirmationMismatch" "The confirmation must exactly match REPLACE."
    ∷ line "backup.exportError" "Backup export failed"
    ∷ line "backup.restoreError" "Backup restore failed"
    ∷ line "backup.restoreSuccess" "Restore complete. Signing out now."
    ∷ line "auth.resendIn" "Resend in {n}s"
    ∷ []
