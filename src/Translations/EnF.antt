-- ===== src/Translations/EnF.antt =====
-- frontend/src/i18n.ts: part 6 of 7 of the dictionary `en`, in the order of the source.
use notes_of_ashen.Base.{List, [], ◌∷◌}
use notes_of_ashen.Translations.Lines.{Line, line}

unfoldable pub en_f : List Line
en_f =
    line "ragSettings.testRerank" "Test rerank"
    ∷ line "ragSettings.testSavedHint"
        "Connection tests use only the saved configuration; unsaved changes are not included."
    ∷ line "ragSettings.testing" "Testing…"
    ∷ line "ragSettings.testSuccess" "Connection test succeeded in {latency} ms."
    ∷ line "ragSettings.testError" "Connection test failed"
    ∷ line "ragSettings.dimensionsMismatch"
        "The embedding response dimensions do not match the current setting."
    ∷ line "logs.user" "User"
    ∷ line "logs.event" "Event"
    ∷ line "logs.source" "Source"
    ∷ line "logs.loadError" "Failed to load logs"
    ∷ line "logs.subtitle" "Review important site actions and security events"
    ∷ line "logs.total" "{total} records"
    ∷ line "logs.filterEvent" "Event type"
    ∷ line "logs.allEvents" "All events"
    ∷ line "logs.filterActor" "Account or user ID"
    ∷ line "logs.filterIp" "IP address"
    ∷ line "logs.startDate" "Start date"
    ∷ line "logs.endDate" "End date"
    ∷ line "logs.search" "Search"
    ∷ line "logs.reset" "Reset"
    ∷ line "logs.invalidDateRange" "Start date cannot be later than end date"
    ∷ line "logs.resource" "Resource"
    ∷ line "logs.details" "Details"
    ∷ line "logs.expand" "Expand details"
    ∷ line "logs.collapse" "Collapse details"
    ∷ line "logs.logId" "Log ID"
    ∷ line "logs.userId" "User ID"
    ∷ line "logs.client" "Client"
    ∷ line "logs.userAgent" "Raw User-Agent"
    ∷ line "logs.metadata" "Metadata"
    ∷ line "logs.rawMetadata" "Raw metadata"
    ∷ line "logs.noMetadata" "No metadata"
    ∷ line "logs.noIp" "Unknown IP"
    ∷ line "logs.anonymous" "Anonymous / System"
    ∷ line "logs.unknownEvent" "Unknown event"
    ∷ line "logs.unknownResource" "Unknown resource"
    ∷ line "logs.unknownClient" "Unknown client"
    ∷ line "logs.unknownBrowser" "Unknown browser"
    ∷ line "logs.unknownSystem" "Unknown system"
    ∷ line "logs.emptyTitle" "No operation logs yet"
    ∷ line "logs.emptyDescription" "Auditable site activity will appear here."
    ∷ line "logs.filteredEmptyTitle" "No matching logs"
    ∷ line "logs.filteredEmptyDescription" "Adjust the filters or clear them and try again."
    ∷ line "logs.clearFilters" "Clear filters"
    ∷ line "logs.resource.article" "Article"
    ∷ line "logs.resource.user" "User"
    ∷ line "logs.resource.email" "Email"
    ∷ line "logs.metadata.purpose" "Purpose"
    ∷ line "logs.metadata.status" "Status"
    ∷ line "logs.metadata.versionNo" "Version"
    ∷ line "logs.event.articleCreated" "Article created"
    ∷ line "logs.event.articleUpdated" "Article updated"
    ∷ line "logs.event.articleDeleted" "Article deleted"
    ∷ line "logs.event.articleStatusUpdated" "Article status updated"
    ∷ line "logs.event.articleVersionRestored" "Article version restored"
    ∷ line "logs.event.authVerifyCodeSent" "Guest verification code sent"
    ∷ line "logs.event.userVerifyCodeSent" "Account verification code sent"
    ∷ line "logs.event.userRegistered" "User registered"
    ∷ line "logs.event.userLoggedIn" "User signed in"
    ∷ line "logs.event.userLoggedOut" "User signed out"
    ∷ line "logs.event.userPasswordReset" "User password reset"
    ∷ line "logs.event.tokenMismatchLogout" "Suspicious token logout"
    ∷ line "aiSettings.title" "AI Settings"
    ∷ line "aiSettings.loading" "Loading AI settings..."
    ∷ line "aiSettings.enableTitle" "AI Writing"
    ∷ line "aiSettings.enableDesc"
        "Controls summary, SEO, and assisted writing in the admin editor."
    ∷ line "aiSettings.providerTitle" "Model Provider"
    ∷ line "aiSettings.providerDesc"
        "Set the API format, service URL, model, and key. Connection actions use the current unsaved draft."
    ∷ line "aiSettings.apiFormat" "API Format"
    ∷ line "aiSettings.openaiFormat" "OpenAI"
    ∷ line "aiSettings.openaiFormatDesc" "Compatible with OpenAI Chat Completions."
    ∷ line "aiSettings.anthropicFormat" "Anthropic"
    ∷ line "aiSettings.anthropicFormatDesc" "Compatible with Anthropic Messages."
    ∷ line "aiSettings.modelPlaceholder" "Choose a suggested model or enter one"
    ∷ line "aiSettings.modelCandidates" "Models ({count})"
    ∷ line "aiSettings.modelCandidatesLabel" "Select a loaded model"
    ∷ line "aiSettings.apiKey" "API Key"
    ∷ line "aiSettings.apiKeyPlaceholder" "Enter a new API key"
    ∷ line "aiSettings.apiKeyConfigured" "A key is saved. Leave blank to keep it."
    ∷ line "aiSettings.configured" "API key configured"
    ∷ line "aiSettings.notConfigured" "No API key configured"
    ∷ line "aiSettings.clearKey" "Clear saved key"
    ∷ line "aiSettings.keyNeedsUpdate"
        "Re-enter and save the API key to migrate it to the v3 encryption format."
    ∷ line "aiSettings.getModels" "Get Models"
    ∷ line "aiSettings.modelsLoading" "Loading"
    ∷ line "aiSettings.modelsLoaded"
        "{count} models loaded. Select one from the list; your current entry was not changed."
    ∷ line "aiSettings.modelsEmpty"
        "The service returned no models. You can still enter a model manually."
    ∷ line "aiSettings.modelsError" "Failed to load models"
    ∷ line "aiSettings.test" "Test Model"
    ∷ line "aiSettings.testing" "Testing"
    ∷ line "aiSettings.testSuccess"
        "Model {model} connected successfully in {latency} ms. Enable AI Writing and save the settings before using it."
    ∷ line "aiSettings.testError" "Model connection test failed"
    ∷ line "aiSettings.timeoutTitle" "Timeouts"
    ∷ line "aiSettings.timeoutDesc"
        "First byte controls the response header/first-byte wait; non-stream controls the total request time."
    ∷ line "aiSettings.firstByte" "First byte (s)"
    ∷ line "aiSettings.nonStream" "Non-streaming (s)"
    ∷ line "aiSettings.timeoutError"
        "Timeouts must be between 1 and 1800 seconds, and non-stream cannot be lower than first byte."
    ∷ line "aiSettings.save" "Save Settings"
    ∷ line "aiSettings.saving" "Saving"
    ∷ line "aiSettings.saved" "AI settings saved."
    ∷ line "aiSettings.loadError" "Failed to load AI settings"
    ∷ line "aiSettings.saveError" "Failed to save AI settings"
    ∷ line "toast.saveSuccess" "Saved"
    ∷ line "toast.sessionExpired" "Session expired. Please sign in again."
    ∷ line "toast.logoutFailed" "Sign out failed. Check your connection and try again."
    ∷ line "toast.summaryFailed" "Failed to generate summary"
    ∷ line "toast.requestPending" "Working on it — please hold on…"
    ∷ line "toast.dismiss" "Close"
    ∷ line "error.timeoutRead" "The request timed out. Please try again later."
    ∷ line "error.timeoutWrite"
        "The network is slow. Your request may still be processing — please refresh the page later to verify, to avoid duplicate submissions."
    ∷ line "error.network" "Network connection failed. Please check your connection and try again."
    ∷ line "error.duplicateSubmit"
        "Please do not submit again — your request is still being processed."
    ∷ line "error.fieldRequired" "{field} is required"
    ∷ line "error.fieldLengthInvalid" "{field} length is invalid"
    ∷ line "error.fieldLocalAddress" "{field} must not point to a local address"
    ∷ line "error.fieldCountInvalid" "{field} count is invalid"
    ∷ line "error.fieldInvalid" "{field} is invalid"
    ∷ line "error.operationFailedFallback" "Operation failed. Please try again later."
    ∷ line "error.boundaryTitle" "Something went wrong while rendering the page"
    ∷ []
