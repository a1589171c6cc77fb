-- ===== src/Translations/EnE.antt =====
-- frontend/src/i18n.ts: part 5 of 7 of the dictionary `en`, in the order of the source.
use notes_of_ashen.Base.{List, [], ◌∷◌}
use notes_of_ashen.Translations.Lines.{Line, line}

unfoldable pub en_e : List Line
en_e =
    line "settings.homeLayoutAlternating" "Alternating"
    ∷ line "settings.homeLayoutAlternatingDesc"
        "Articles with covers alternate sides; text-only articles do not interrupt the rhythm."
    ∷ line "settings.homeModulesTitle" "Home Module Visibility"
    ∷ line "settings.homeModulesDesc"
        "Control whether supporting navigation modules appear on the home page."
    ∷ line "settings.homeCtaModule" "Continue Exploring Module"
    ∷ line "settings.moduleVisible" "Module Visible"
    ∷ line "settings.moduleHidden" "Module Hidden"
    ∷ line "settings.saved" "Site settings saved"
    ∷ line "settings.saveError" "Failed to save site settings"
    ∷ line "siteSettings.loadError" "Failed to load site settings. Please try again."
    ∷ line "settings.publicPagesTitle" "Public Page Controls"
    ∷ line "settings.publicPagesDesc"
        "Enabled controls whether the route is accessible; hidden only controls whether it appears in public navigation."
    ∷ line "settings.projectsPage" "Projects Page"
    ∷ line "settings.projectsPageDesc" "Controls the /projects page and navigation entry."
    ∷ line "settings.ragChatPage" "AI Q&A Page"
    ∷ line "settings.ragChatPageDesc"
        "Controls the /ask page, navigation entry, and minimum role. Manage model and knowledge-base connections in Knowledge Base."
    ∷ line "settings.ragChatAccess" "Minimum Access Role"
    ∷ line "settings.ragAccessGuest" "Guest"
    ∷ line "settings.ragAccessUser" "Signed-in users"
    ∷ line "settings.ragAccessEditor" "Editors and admins"
    ∷ line "settings.enabled" "Enabled"
    ∷ line "settings.disabled" "Disabled"
    ∷ line "settings.navHidden" "Nav Hidden"
    ∷ line "settings.navVisible" "Nav Visible"
    ∷ line "settings.seoTitle" "Site SEO"
    ∷ line "settings.seoDesc"
        "Used for page titles, default description, keywords, and RSS/Sitemap link generation."
    ∷ line "settings.siteTitle" "Site Title"
    ∷ line "settings.siteBaseUrl" "Site URL"
    ∷ line "settings.siteDescription" "Site Description"
    ∷ line "settings.siteKeywords" "Keywords"
    ∷ line "ragChat.kicker" "ASK THE ARCHIVE"
    ∷ line "ragChat.title" "Ask the Articles"
    ∷ line "ragChat.subtitle"
        "Answers are grounded only in published articles and include sources you can revisit."
    ∷ line "ragChat.history" "Conversations"
    ∷ line "ragChat.newChat" "New chat"
    ∷ line "ragChat.historyLoading" "Loading conversations…"
    ∷ line "ragChat.historyEmpty" "No saved conversations yet."
    ∷ line "ragChat.loadSessionsError" "Failed to load conversations"
    ∷ line "ragChat.sessionLoadError" "Failed to load this conversation"
    ∷ line "ragChat.deleteSession" "Delete conversation"
    ∷ line "ragChat.deleteConfirm" "Delete this conversation? This cannot be undone."
    ∷ line "ragChat.deleteError" "Failed to delete conversation"
    ∷ line "ragChat.askPlaceholder" "Ask a question about the articles…"
    ∷ line "ragChat.send" "Ask"
    ∷ line "ragChat.stop" "Stop"
    ∷ line "ragChat.generating" "Gathering article evidence…"
    ∷ line "ragChat.questionRequired" "Write a question first."
    ∷ line "ragChat.sendError" "The question could not be completed. Please try again later."
    ∷ line "ragChat.interrupted" "Generation stopped. The content below may be incomplete."
    ∷ line "ragChat.retry" "Regenerate"
    ∷ line "ragChat.copy" "Copy"
    ∷ line "ragChat.copied" "Copied"
    ∷ line "ragChat.you" "You"
    ∷ line "ragChat.assistant" "Article Q&A"
    ∷ line "ragChat.sources" "Sources"
    ∷ line "ragChat.source" "Source"
    ∷ line "ragChat.sourcesUpdated"
        "A cited article has changed. To avoid showing stale excerpts, only its current link is kept; please refer to the latest article."
    ∷ line "ragChat.unavailable"
        "A source article for this answer is no longer public, so the answer is unavailable."
    ∷ line "ragChat.emptyTitle" "Start with a question"
    ∷ line "ragChat.emptyDesc"
        "I search only published articles for evidence and will say when there is not enough support."
    ∷ line "ragChat.signInRequired" "This Q&A page is available to signed-in users only."
    ∷ line "ragChat.editorRequired" "This Q&A page is available to editors and administrators only."
    ∷ line "ragChat.accessDenied" "You do not currently have permission to access this Q&A page."
    ∷ line "ragChat.signIn" "Sign in"
    ∷ line "ragChat.showHistory" "Show history"
    ∷ line "ragChat.hideHistory" "Hide history"
    ∷ line "ragChat.historySearch" "Search conversations…"
    ∷ line "ragChat.historySearchEmpty" "No matching conversations."
    ∷ line "ragChat.backToBottom" "Back to bottom"
    ∷ line "ragSettings.title" "RAG Knowledge Base"
    ∷ line "ragSettings.loading" "Loading knowledge-base settings…"
    ∷ line "ragSettings.loadError" "Failed to load knowledge-base settings"
    ∷ line "ragSettings.save" "Save Knowledge Base"
    ∷ line "ragSettings.saving" "Saving…"
    ∷ line "ragSettings.saved" "Knowledge-base settings saved."
    ∷ line "ragSettings.saveError" "Failed to save knowledge-base settings"
    ∷ line "ragSettings.enableTitle" "Enable RAG Knowledge Base"
    ∷ line "ragSettings.enableDesc"
        "When enabled, published articles are indexed asynchronously and can be searched by AI Q&A."
    ∷ line "ragSettings.providerTitle" "Model Services"
    ∷ line "ragSettings.providerDesc"
        "Chat and embeddings use OpenAI-compatible endpoints; reranking uses its own endpoint. The API key is stored encrypted."
    ∷ line "ragSettings.chatBaseUrl" "Chat Base URL"
    ∷ line "ragSettings.embeddingBaseUrl" "Embedding Base URL"
    ∷ line "ragSettings.rerankUrl" "Rerank URL"
    ∷ line "ragSettings.apiKey" "RAG API Key"
    ∷ line "ragSettings.apiKeyPlaceholder"
        "Enter a new API key; leave blank to retain the saved key"
    ∷ line "ragSettings.apiKeyConfigured" "An API key is saved. Leave blank to keep it."
    ∷ line "ragSettings.configured" "API key configured"
    ∷ line "ragSettings.notConfigured" "No API key configured"
    ∷ line "ragSettings.clearKey" "Clear saved API key"
    ∷ line "ragSettings.keyNeedsUpdate"
        "Re-enter and save the API key to migrate it to the latest encryption format."
    ∷ line "ragSettings.chatModel" "Chat model"
    ∷ line "ragSettings.embeddingModel" "Embedding model"
    ∷ line "ragSettings.embeddingDimensions" "Embedding dimensions"
    ∷ line "ragSettings.rerankModel" "Rerank model"
    ∷ line "ragSettings.retention" "Conversation retention (days)"
    ∷ line "ragSettings.retentionHint"
        "0 retains conversations indefinitely; guest chats are never saved on the server."
    ∷ line "ragSettings.retentionForever" "Keep forever"
    ∷ line "ragSettings.retentionDays" "Keep for {days} days"
    ∷ line "ragSettings.retentionInvalid"
        "Choose one of the supported conversation retention periods."
    ∷ line "ragSettings.publicTitle" "Q&A Page and Access"
    ∷ line "ragSettings.publicDesc"
        "After the page is enabled, Q&A still waits for the knowledge base to be ready."
    ∷ line "ragSettings.pageEnabled" "Enable /ask page"
    ∷ line "ragSettings.navVisible" "Show in navigation"
    ∷ line "ragSettings.accessLevel" "Minimum access role"
    ∷ line "ragSettings.statusTitle" "Index Status"
    ∷ line "ragSettings.statusDesc"
        "Article changes synchronize automatically. Updating embedding settings requires a rebuild."
    ∷ line "ragSettings.status.ready" "Ready"
    ∷ line "ragSettings.status.rebuilding" "Rebuilding"
    ∷ line "ragSettings.status.needs_rebuild" "Rebuild required"
    ∷ line "ragSettings.status.error" "Error"
    ∷ line "ragSettings.status.disabled" "Disabled"
    ∷ line "ragSettings.queueDepth" "Queued jobs: {count}"
    ∷ line "ragSettings.indexedArticles" "Indexed articles: {count}"
    ∷ line "ragSettings.indexedChunks" "Indexed chunks: {count}"
    ∷ line "ragSettings.rebuild" "Rebuild knowledge base"
    ∷ line "ragSettings.rebuilding" "Rebuilding…"
    ∷ line "ragSettings.rebuildConfirm"
        "Rebuild the entire knowledge base? AI Q&A will be unavailable while rebuilding."
    ∷ line "ragSettings.testChat" "Test chat"
    ∷ line "ragSettings.testEmbedding" "Test embedding"
    ∷ []
