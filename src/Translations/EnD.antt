-- ===== src/Translations/EnD.antt =====
-- frontend/src/i18n.ts: part 4 of 7 of the dictionary `en`, in the order of the source.
use notes_of_ashen.Base.{List, [], ◌∷◌}
use notes_of_ashen.Translations.Lines.{Line, line}

unfoldable pub en_d : List Line
en_d =
    line "articleEditor.createTagOption" "Create tag \"{value}\""
    ∷ line "articleEditor.noCategoryMatches" "No matching categories"
    ∷ line "articleEditor.noTagMatches" "No matching tags"
    ∷ line "articleEditor.clearCategory" "Clear category"
    ∷ line "articleEditor.removeTag" "Remove tag"
    ∷ line "articleEditor.coverUrlError"
        "Cover URL must start with http:// or https://, or be empty"
    ∷ line "articleEditor.titleRequired" "Article title is required"
    ∷ line "articleEditor.slugRequired" "Article slug is required"
    ∷ line "articleEditor.aiMagic" "✨ AI"
    ∷ line "articleEditor.aiMetadata" "Complete Article Info"
    ∷ line "articleEditor.aiSeoTitle" "SEO Title"
    ∷ line "articleEditor.aiSeoDescription" "SEO Description"
    ∷ line "articleEditor.aiSeoKeywords" "SEO Keywords"
    ∷ line "articleEditor.aiProofread" "Proofread"
    ∷ line "articleEditor.aiPolish" "Polish Tone"
    ∷ line "articleEditor.aiExpand" "Expand Paragraph"
    ∷ line "articleEditor.aiShorten" "Shorten Paragraph"
    ∷ line "articleEditor.aiTranslate" "Translate Paragraph"
    ∷ line "articleEditor.aiProcessing" "AI Working"
    ∷ line "articleEditor.aiContentRequired" "Please write the article body first."
    ∷ line "articleEditor.aiContentChanged"
        "The article body has changed. Please regenerate the AI result before applying it."
    ∷ line "articleEditor.aiMetadataApplied"
        "AI filled summary and SEO fields. Please review before saving."
    ∷ line "articleEditor.aiCompletionApplied"
        "AI completed {count} empty fields. Existing content was kept unchanged."
    ∷ line "articleEditor.aiTaxonomyTitle" "AI Category and Tag Suggestions"
    ∷ line "articleEditor.aiTaxonomyHint"
        "These are text suggestions only. Nothing has been selected or created; apply them manually after review."
    ∷ line "articleEditor.aiCategorySuggestion" "Category suggestion"
    ∷ line "articleEditor.aiTagSuggestions" "Tag suggestions"
    ∷ line "articleEditor.aiResultReady" "{action} result is ready. Review before applying."
    ∷ line "articleEditor.aiResultTitle" "AI {action} Result"
    ∷ line "articleEditor.aiApply" "Apply to Body"
    ∷ line "articleEditor.aiContentApplied"
        "AI result was applied to the body. Please review before saving."
    ∷ line "articleEditor.aiError" "AI assist failed"
    ∷ line "articleEditor.generateSummaryOnSave" "Generate summary on save"
    ∷ line "articleEditor.generateSummaryHint"
        "Enabled by default only when summary is empty. AI also fills SEO fields when possible."
    ∷ line "articleEditor.localDraftTitle" "Local autosave draft found"
    ∷ line "articleEditor.localDraftDesc" "Saved at {time}"
    ∷ line "articleEditor.restoreDraft" "Restore Draft"
    ∷ line "articleEditor.discardDraft" "Discard Draft"
    ∷ line "articleEditor.draftRestored" "Local draft restored."
    ∷ line "articleEditor.draftDiscarded" "Local draft discarded."
    ∷ line "articleEditor.priority" "Display Priority"
    ∷ line "articleEditor.scheduledPublishHint"
        "This article will be scheduled and become public at the selected time."
    ∷ line "aiAction.complete" "Article completion"
    ∷ line "aiAction.metadata" "Metadata"
    ∷ line "aiAction.proofread" "Proofread"
    ∷ line "aiAction.polish" "Polish"
    ∷ line "aiAction.expand" "Expand"
    ∷ line "aiAction.shorten" "Shorten"
    ∷ line "aiAction.translate" "Translate"
    ∷ line "articleAdmin.import" "Import Markdown"
    ∷ line "articleAdmin.importing" "Importing..."
    ∷ line "articleAdmin.importError" "Markdown import failed"
    ∷ line "articleAdmin.export" "Export"
    ∷ line "articleAdmin.exportError" "Markdown export failed"
    ∷ line "articleAdmin.preview" "Preview"
    ∷ line "articleAdmin.versions" "Versions"
    ∷ line "articleAdmin.scheduled" "Scheduled"
    ∷ line "articleAdmin.priority" "Priority"
    ∷ line "projectModal.close" "Close project details"
    ∷ line "projectModal.detailsTitle" "Project details"
    ∷ line "projectModal.empty" "No details for this project yet"
    ∷ line "projectAdmin.title" "Project Management"
    ∷ line "projectAdmin.defaultTitle" "Projects"
    ∷ line "projectAdmin.loading" "Loading project content..."
    ∷ line "projectAdmin.loadError" "Failed to load project content"
    ∷ line "projectAdmin.saveError" "Failed to save project content"
    ∷ line "projectAdmin.saved" "Project content saved"
    ∷ line "projectAdmin.pageTitle" "Page Title"
    ∷ line "projectAdmin.subtitle" "Subtitle"
    ∷ line "projectAdmin.empty" "No projects yet."
    ∷ line "projectAdmin.add" "Add Project"
    ∷ line "projectAdmin.save" "Save Projects"
    ∷ line "projectAdmin.saving" "Saving..."
    ∷ line "projectAdmin.reset" "Reset"
    ∷ line "projectAdmin.confirmDelete" "Delete this project?"
    ∷ line "projectAdmin.untitled" "Untitled Project"
    ∷ line "projectAdmin.noTags" "No tags"
    ∷ line "projectAdmin.up" "Up"
    ∷ line "projectAdmin.down" "Down"
    ∷ line "projectAdmin.collapse" "Collapse"
    ∷ line "projectAdmin.expand" "Expand"
    ∷ line "projectAdmin.projectTitle" "Project Title"
    ∷ line "projectAdmin.role" "Role"
    ∷ line "projectAdmin.period" "Period"
    ∷ line "projectAdmin.tags" "Tags"
    ∷ line "projectAdmin.coverUrl" "Cover URL"
    ∷ line "projectAdmin.demoUrl" "Demo URL"
    ∷ line "projectAdmin.repoUrl" "Repository URL"
    ∷ line "projectAdmin.featured" "Featured Project"
    ∷ line "projectAdmin.summary" "Summary"
    ∷ line "projectAdmin.detailEditor" "Detail Markdown"
    ∷ line "projectAdmin.detailPlaceholder" "Write project detail Markdown..."
    ∷ line "projectAdmin.preview" "Detail Preview"
    ∷ line "projectAdmin.emptyPreview" "Nothing to preview yet"
    ∷ line "projectAdmin.projectNo" "Project {value}"
    ∷ line "taxonomy.listCategoryError" "Failed to load category list"
    ∷ line "taxonomy.listTagError" "Failed to load tag list"
    ∷ line "taxonomy.submitError" "Operation failed"
    ∷ line "taxonomy.deleteCategoryError" "Delete failed; related articles may exist"
    ∷ line "taxonomy.deleteTagError" "Delete failed"
    ∷ line "taxonomy.confirmDelete" "Confirm deletion?"
    ∷ line "taxonomy.add" "Add"
    ∷ line "users.account" "Account"
    ∷ line "users.nickname" "Nickname"
    ∷ line "users.role" "Role"
    ∷ line "users.activate" "Enable"
    ∷ line "users.disable" "Disable"
    ∷ line "users.confirmStatus" "Confirm to {action} this user?"
    ∷ line "users.confirmRole" "Change this user role to \"{role}\"?"
    ∷ line "users.loadError" "Failed to load user list"
    ∷ line "users.actionError" "Operation failed"
    ∷ line "settings.registrationTitle" "Registration Gate"
    ∷ line "settings.registrationDesc"
        "When closed, the sign-up entry is hidden and new registrations are rejected. First-admin setup is not affected."
    ∷ line "settings.registrationEnabled" "Open"
    ∷ line "settings.registrationDisabled" "Closed"
    ∷ line "settings.homeLayoutTitle" "Home Article Layout"
    ∷ line "settings.homeLayoutDesc"
        "Control how covers and text are arranged in the home article list."
    ∷ line "settings.homeLayoutStandard" "Standard"
    ∷ line "settings.homeLayoutStandardDesc"
        "Articles use a multi-column card grid, with covers above the text."
    ∷ []
