-- ===== src/Translations/EnB.antt =====
-- frontend/src/i18n.ts: part 2 of 7 of the dictionary `en`, in the order of the source.
use notes_of_ashen.Base.{List, [], ◌∷◌}
use notes_of_ashen.Translations.Lines.{Line, line}

unfoldable pub en_b : List Line
en_b =
    line "common.confirm" "Confirm"
    ∷ line "common.edit" "Edit"
    ∷ line "common.delete" "Delete"
    ∷ line "common.remove" "Remove"
    ∷ line "common.dismiss" "Dismiss"
    ∷ line "common.breadcrumb" "Breadcrumb"
    ∷ line "common.processing" "Processing..."
    ∷ line "common.saving" "Saving..."
    ∷ line "common.noCategory" "No categories yet"
    ∷ line "common.noTag" "No tags yet"
    ∷ line "common.pinned" "Pinned"
    ∷ line "imageLightbox.close" "Close image viewer"
    ∷ line "imageLightbox.viewImage" "View image"
    ∷ line "imageLightbox.viewImageWithAlt" "View image: {alt}"
    ∷ line "markdownTable.table" "Table"
    ∷ line "markdownTable.collapse" "Collapse"
    ∷ line "markdownTable.expand" "Expand"
    ∷ line "articlePreview.loading" "Loading preview..."
    ∷ line "articlePreview.loadError" "Failed to load preview"
    ∷ line "articlePreview.missing" "Article not found"
    ∷ line "articlePreview.notice" "Draft preview. Views will not be counted."
    ∷ line "articlePreview.backToEditor" "Back to Editor"
    ∷ line "articleVersion.title" "Version History"
    ∷ line "articleVersion.backToEditor" "Back to Editor"
    ∷ line "articleVersion.empty" "No version history yet"
    ∷ line "articleVersion.version" "Version"
    ∷ line "articleVersion.articleTitle" "Title"
    ∷ line "articleVersion.status" "Status"
    ∷ line "articleVersion.savedAt" "Saved At"
    ∷ line "articleVersion.actions" "Actions"
    ∷ line "articleVersion.inspect" "View"
    ∷ line "articleVersion.restore" "Restore"
    ∷ line "articleVersion.summary" "Summary"
    ∷ line "articleVersion.historyLoadError" "Failed to load version history"
    ∷ line "articleVersion.detailLoadError" "Failed to load version detail"
    ∷ line "articleVersion.restoreError" "Failed to restore version"
    ∷ line "articleVersion.confirmRestore"
        "Restore version #{versionNo}? The current content will be saved as a new history version first."
    ∷ line "pagination.prev" "Previous"
    ∷ line "pagination.next" "Next"
    ∷ line "pagination.page" "Page {current} / {total}"
    ∷ line "pagination.jumpLabel" "Go to"
    ∷ line "pagination.jumpGo" "Go"
    ∷ line "markdownCode.copy" "Copy"
    ∷ line "markdownCode.copied" "Copied"
    ∷ line "markdownCode.mermaidMode" "Mermaid display mode"
    ∷ line "markdownCode.mermaidDiagram" "Diagram"
    ∷ line "markdownCode.mermaidCode" "Code"
    ∷ line "markdownCode.mermaidDiagramLabel" "Mermaid diagram, draggable and zoomable"
    ∷ line "markdownCode.mermaidZoom" "Mermaid diagram zoom"
    ∷ line "markdownCode.mermaidZoomOut" "Zoom out Mermaid diagram"
    ∷ line "markdownCode.mermaidZoomIn" "Zoom in Mermaid diagram"
    ∷ line "markdownCode.mermaidResetZoom" "Reset Mermaid diagram view"
    ∷ line "a11y.skipToContent" "Skip to main content"
    ∷ line "home.loadError" "Failed to load articles"
    ∷ line "home.searchPlaceholder" "Search title, summary, or body"
    ∷ line "home.search" "Search"
    ∷ line "home.clearFilters" "Clear"
    ∷ line "search.kicker" "SEEK THE TRACE"
    ∷ line "search.title" "Search"
    ∷ line "search.subtitle" "Search titles, summaries, and body text."
    ∷ line "search.inputLabel" "Enter search text"
    ∷ line "search.placeholder" "Title, summary, or body"
    ∷ line "search.submit" "Search"
    ∷ line "search.clear" "Clear"
    ∷ line "search.idleTitle" "No search yet."
    ∷ line "search.idleText" "Enter a keyword, or start from archive categories and tags."
    ∷ line "search.resultsKicker" "Results"
    ∷ line "search.resultsFor" "Found {total} articles for \"{keyword}\"."
    ∷ line "search.resultsFiltered" "Found {total} filtered articles."
    ∷ line "search.loading" "Searching..."
    ∷ line "search.emptyTitle" "No matching articles."
    ∷ line "search.emptyText" "Try another keyword, or clear the filters."
    ∷ line "search.loadError" "Search failed. Please try again later"
    ∷ line "article.loadError" "Failed to load article"
    ∷ line "article.missing" "This article does not exist or is unavailable."
    ∷ line "articleDetail.likeError" "Failed to like article"
    ∷ line "articleDetail.likes" "Likes"
    ∷ line "articleDetail.liked" "Liked"
    ∷ line "articleDetail.liking" "Liking"
    ∷ line "articleDetail.like" "Like"
    ∷ line "articleDetail.previous" "Previous"
    ∷ line "articleDetail.next" "Next"
    ∷ line "articleDetail.related" "Related Articles"
    ∷ line "articleDetail.viewImage" "View full-size image: {title}"
    ∷ line "articleToc.title" "Contents"
    ∷ line "articleToc.collapse" "Collapse"
    ∷ line "articleToc.expand" "Expand"
    ∷ line "archive.titleCategories" "Where the Pages Gather"
    ∷ line "archive.titleTags" "Traces in the Margins"
    ∷ line "archive.loadError" "Failed to load archive data"
    ∷ line "archive.historyTitle" "Years, Bound in Ink"
    ∷ line "archive.historyKicker" "A CHRONICLE OF WORDS"
    ∷ line "archive.historyDescription"
        "Follow the years through old pages, and meet each line again where it entered time."
    ∷ line "archive.historyLoading" "Gathering pages from the passing years..."
    ∷ line "archive.historyLoadError" "The old pages could not be gathered. Please try again."
    ∷ line "archive.filtersLoadError"
        "The trails through these pages could not be gathered. Please try again."
    ∷ line "archive.emptyHistory" "The pages are still blank, waiting for the first line of ink."
    ∷ line "archive.undated" "Beyond the calendar"
    ∷ line "archive.expand" "Expand {label}"
    ∷ line "archive.collapse" "Collapse {label}"
    ∷ line "archive.articleCount" "{count} articles"
    ∷ line "archive.articleCountOne" "{count} article"
    ∷ line "projects.loading" "Loading projects..."
    ∷ line "projects.loadError" "Failed to load projects"
    ∷ line "projects.empty" "No projects have been added yet."
    ∷ line "projects.demo" "Demo"
    ∷ line "projects.repo" "Repo"
    ∷ line "projects.featured" "Featured"
    ∷ line "projects.noCover" "No Cover"
    ∷ line "projects.viewDetail" "View details →"
    ∷ line "projects.openDetail" "View project details: {title}"
    ∷ line "projects.kicker" "WORKS"
    ∷ line "projects.pageTitleFallback" "Projects"
    ∷ line "auth.loginTitle" "Sign In"
    ∷ line "auth.registerTitle" "Register"
    ∷ line "auth.accountOrEmail" "Account or email"
    ∷ line "auth.account" "Account"
    ∷ line "auth.accountWithHint" "Account (3-64 chars)"
    ∷ line "auth.email" "Email"
    ∷ []
