-- ===== src/Translations/EnA.antt =====
-- frontend/src/i18n.ts: part 1 of 7 of the dictionary `en`, in the order of the source.
use notes_of_ashen.Base.{List, [], ◌∷◌}
use notes_of_ashen.Translations.Lines.{Line, line}

unfoldable pub en_a : List Line
en_a =
    line "auth.captcha" "Captcha"
    ∷ line "auth.captchaLoading" "Loading"
    ∷ line "auth.refreshCaptcha" "Refresh captcha"
    ∷ line "auth.captchaError" "Failed to load captcha"
    ∷ line "auth.emailCode" "Email code"
    ∷ line "auth.sendEmailCode" "Send Code"
    ∷ line "auth.sendingEmailCode" "Sending..."
    ∷ line "auth.emailCodeSent" "Code sent. Please check your email."
    ∷ line "auth.sendEmailCodeError" "Failed to send code"
    ∷ line "auth.forgotPassword" "Forgot password?"
    ∷ line "auth.forgotPasswordTitle" "Reset Password"
    ∷ line "auth.resetPasswordSubmit" "Reset Password"
    ∷ line "auth.resetPasswordSubmitting" "Resetting..."
    ∷ line "auth.resetPasswordSuccess" "Password reset. Please sign in again."
    ∷ line "auth.resetPasswordError" "Password reset failed"
    ∷ line "nav.search" "Search"
    ∷ line "home.searchCurtainPlaceholder" "Title, summary, or body"
    ∷ line "home.searchSubmit" "Search"
    ∷ line "home.activeSearch" "Searching for \"{keyword}\""
    ∷ line "home.activeFilters" "Filters are active"
    ∷ line "home.clearFiltersPoetic" "Clear Filters"
    ∷ line "home.heroKicker" "A slowly growing personal journal"
    ∷ line "home.heroBrowse" "Start reading"
    ∷ line "home.featuredRead" "Read article"
    ∷ line "home.featuredLabel" "FEATURED ARTICLE"
    ∷ line "home.defaultSiteDescription" "A personal blog written slowly by the lamp of ink."
    ∷ line "home.emptyKicker" "A NEW PAGE AWAITS"
    ∷ line "home.emptyTitle" "No articles yet."
    ∷ line "home.emptyDescription" "New notes are taking shape. Please check back soon."
    ∷ line "home.loadErrorTitle" "The notes could not be opened"
    ∷ line "home.latestTitle" "Latest notes"
    ∷ line "home.latestLabel" "LATEST NOTE"
    ∷ line "home.articleCountOne" "{total} article collected"
    ∷ line "home.articleCount" "{total} articles collected"
    ∷ line "home.journalKicker" "Journal & essays"
    ∷ line "home.ctaKicker" "KEEP EXPLORING"
    ∷ line "home.ctaTitle" "Follow the words a little further"
    ∷ line "home.ctaDescription"
        "Browse the complete archive, or search titles, summaries, and body text for your next read."
    ∷ line "home.ctaArchive" "Browse archive"
    ∷ line "home.ctaSearch" "Search articles"
    ∷ line "home.moreComing" "More notes are on the way."
    ∷ line "archive.kicker" "Old pages & passing years"
    ∷ line "articleDetail.kicker" "Journal entry"
    ∷ line "auth.loginKicker" "Welcome back"
    ∷ line "auth.registerKicker" "Create your account"
    ∷ line "auth.recoveryKicker" "Account recovery"
    ∷ line "profile.kicker" "Account & security"
    ∷ line "dashboard.kicker" "Overview"
    ∷ line "article.coverHidden" "Cover unavailable"
    ∷ line "brand.name" "Notes of Ashen"
    ∷ line "brand.nameEn" "Notes of Ashen"
    ∷ line "nav.home" "Home"
    ∷ line "nav.archive" "Archive"
    ∷ line "nav.admin" "Admin"
    ∷ line "nav.login" "Sign In"
    ∷ line "nav.logout" "Sign Out"
    ∷ line "nav.profile" "Profile"
    ∷ line "nav.menuOpen" "Open menu"
    ∷ line "nav.menuClose" "Close menu"
    ∷ line "nav.projects" "Projects"
    ∷ line "nav.ask" "Ask"
    ∷ line "preferences.trigger" "Prefs"
    ∷ line "preferences.openLabel" "Open language and theme settings"
    ∷ line "preferences.title" "Language and Theme"
    ∷ line "preferences.subtitle" "Choose a reading style. Preferences are saved in this browser."
    ∷ line "preferences.styleTitle" "Visual style"
    ∷ line "preferences.style.editorial" "Editorial"
    ∷ line "preferences.style.soft-brutalism" "Soft Brutalism"
    ∷ line "preferences.style.japanese-paper" "Japanese Paper"
    ∷ line "preferences.style.swiss" "Swiss"
    ∷ line "preferences.style.neo-brutalism" "Neo-brutalism"
    ∷ line "preferences.style.dark-academia" "Dark Academia"
    ∷ line "preferences.styleDescription.neo-brutalism" "Bold color · Thick outlines · Hard shadows"
    ∷ line "preferences.styleDescription.dark-academia" "Parchment · Walnut · Brass"
    ∷ line "admin.group.content" "Content"
    ∷ line "admin.group.analytics" "Analytics"
    ∷ line "admin.group.system" "Configuration"
    ∷ line "preferences.styleDescription.editorial" "Warm paper · Serif · Space"
    ∷ line "preferences.styleDescription.soft-brutalism" "Pastels · Outlines · Shadows"
    ∷ line "preferences.styleDescription.japanese-paper" "Paper · Vermilion · Fine rules"
    ∷ line "preferences.styleDescription.swiss" "Grid · Sans serif · Structure"
    ∷ line "preferences.current" "Current: {value}"
    ∷ line "preferences.languageTitle" "Language"
    ∷ line "preferences.languageZh" "中文"
    ∷ line "preferences.languageEn" "English"
    ∷ line "preferences.themeTitle" "Color mode"
    ∷ line "preferences.themeLight" "Light"
    ∷ line "preferences.themeDark" "Dark"
    ∷ line "preferences.themeSystem" "System"
    ∷ line "preferences.accentTitle" "Accent"
    ∷ line "preferences.accentDefault" "Default"
    ∷ line "preferences.accentReset" "Reset"
    ∷ line "toggle.language" "中"
    ∷ line "toggle.languageLabel" "Switch to Chinese"
    ∷ line "toggle.themeLight" "Sun"
    ∷ line "toggle.themeDark" "Moon"
    ∷ line "toggle.themeToLight" "Switch to light mode"
    ∷ line "toggle.themeToDark" "Switch to dark mode"
    ∷ line "footer.poem" "The road is long; ink still flowers."
    ∷ line "footer.crafted" "Written slowly by the lamp of ink."
    ∷ line "common.loadingArticles" "Loading articles..."
    ∷ line "common.loadingArticle" "Loading article..."
    ∷ line "common.loadingArchive" "Loading archive..."
    ∷ line "common.loadingAuth" "Checking session..."
    ∷ line "common.loading" "Loading..."
    ∷ line "common.retry" "Retry"
    ∷ line "common.empty" "No data yet."
    ∷ line "common.emptyArticles" "No articles yet."
    ∷ line "common.views" "Views"
    ∷ line "common.backHome" "Back Home"
    ∷ line "common.name" "Name"
    ∷ line "common.description" "Description"
    ∷ line "common.byteUsage" "UTF-8 bytes: {used}/{limit}"
    ∷ line "common.textTooLarge" "Text must not exceed {limit} UTF-8 bytes"
    ∷ line "common.action" "Action"
    ∷ line "common.status" "Status"
    ∷ line "common.time" "Time"
    ∷ line "common.save" "Save"
    ∷ line "common.cancel" "Cancel"
    ∷ []
