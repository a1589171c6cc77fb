-- ===== src/Translations/EnC.antt =====
-- frontend/src/i18n.ts: part 3 of 7 of the dictionary `en`, in the order of the source.
use notes_of_ashen.Base.{List, [], ◌∷◌}
use notes_of_ashen.Translations.Lines.{Line, line}

unfoldable pub en_c : List Line
en_c =
    line "auth.nickname" "Nickname"
    ∷ line "auth.nicknameOptional" "Nickname (optional)"
    ∷ line "auth.avatarOptional" "Avatar URL (optional)"
    ∷ line "auth.avatarUrl" "Avatar URL"
    ∷ line "auth.password" "Password"
    ∷ line "auth.passwordWithHint" "Password (at least 8 chars)"
    ∷ line "auth.confirmPassword" "Confirm password"
    ∷ line "auth.confirmPasswordWithHint" "Confirm password"
    ∷ line "auth.showPassword" "Show"
    ∷ line "auth.hidePassword" "Hide"
    ∷ line "auth.passwordMismatch" "Passwords do not match. Please check again."
    ∷ line "auth.oldPassword" "Old password"
    ∷ line "auth.newPassword" "New password"
    ∷ line "auth.loginSubmit" "Sign In"
    ∷ line "auth.loginSubmitting" "Signing in..."
    ∷ line "auth.registerSubmit" "Register"
    ∷ line "auth.registerSubmitting" "Registering..."
    ∷ line "auth.noAccount" "No account yet?"
    ∷ line "auth.goRegister" "Create one"
    ∷ line "auth.hasAccount" "Already have an account?"
    ∷ line "auth.goLogin" "Sign in"
    ∷ line "auth.loginError" "Login failed. Please check your account and password"
    ∷ line "auth.registerError" "Registration failed. Please check your details"
    ∷ line "auth.registrationDisabled" "Registration is closed. Please contact the administrator."
    ∷ line "profile.title" "Profile"
    ∷ line "profile.accountLabel" "Account"
    ∷ line "profile.nicknameLabel" "Nickname"
    ∷ line "profile.emailLabel" "Email"
    ∷ line "profile.avatarLabel" "Avatar URL"
    ∷ line "profile.passwordTitle" "Change Password"
    ∷ line "profile.updateProfile" "Update Profile"
    ∷ line "profile.updatingProfile" "Updating..."
    ∷ line "profile.updatePassword" "Change Password"
    ∷ line "profile.updatingPassword" "Changing..."
    ∷ line "profile.updated" "Profile updated"
    ∷ line "profile.passwordUpdated" "Password updated"
    ∷ line "auth.passwordChangedLogin"
        "Password updated. All sessions were signed out; please log in again."
    ∷ line "profile.updateError" "Update failed"
    ∷ line "protected.forbidden" "You do not have permission to access this page."
    ∷ line "notFound.kicker" "Lost Leaf"
    ∷ line "notFound.title" "This path has vanished into cloud."
    ∷ line "notFound.message"
        "The page you followed has drifted like a fallen leaf into the hills. Trace the ink back; words are still waiting by the lamp."
    ∷ line "notFound.back" "Follow the Ink Home"
    ∷ line "admin.title" "Admin"
    ∷ line "admin.dashboard" "Dashboard"
    ∷ line "admin.articles" "Articles"
    ∷ line "admin.categories" "Categories"
    ∷ line "admin.tags" "Tags"
    ∷ line "admin.users" "Users"
    ∷ line "admin.logs" "Logs"
    ∷ line "admin.settings" "Settings"
    ∷ line "admin.projects" "Projects"
    ∷ line "admin.aiSettings" "AI Settings"
    ∷ line "admin.ragSettings" "Knowledge Base"
    ∷ line "admin.breadcrumb.home" "Admin"
    ∷ line "dashboard.title" "Dashboard"
    ∷ line "dashboard.loading" "Loading stats..."
    ∷ line "dashboard.loadError" "Failed to load dashboard stats"
    ∷ line "dashboard.empty" "No data yet"
    ∷ line "dashboard.articleTotal" "Total Articles"
    ∷ line "dashboard.publishedTotal" "Published"
    ∷ line "dashboard.draftTotal" "Drafts"
    ∷ line "dashboard.scheduledTotal" "Scheduled"
    ∷ line "dashboard.viewTotal" "Views"
    ∷ line "dashboard.likeTotal" "Likes"
    ∷ line "dashboard.userTotal" "Users"
    ∷ line "dashboard.categoryTotal" "Categories"
    ∷ line "dashboard.tagTotal" "Tags"
    ∷ line "dashboard.popularArticles" "Popular Articles"
    ∷ line "dashboard.recentArticles" "Recent Articles"
    ∷ line "dashboard.recentLogs" "Recent Logs"
    ∷ line "dashboard.trafficTitle" "Traffic Trend"
    ∷ line "dashboard.trafficSubtitle" "Public page views and unique visitors over the last 30 days"
    ∷ line "dashboard.todayPv" "Today's page views (PV)"
    ∷ line "dashboard.todayUv" "Today's unique visitors (UV)"
    ∷ line "dashboard.trafficLegend" "Traffic trend legend"
    ∷ line "dashboard.trafficLegendHelp"
        "Select a series to highlight it. Select it again to show both series equally."
    ∷ line "dashboard.referers" "Referers"
    ∷ line "dashboard.refererDirect" "Direct"
    ∷ line "dashboard.refererInternal" "Internal"
    ∷ line "dashboard.refererSearch" "Search"
    ∷ line "dashboard.refererExternal" "External"
    ∷ line "adminArticles.new" "New Article"
    ∷ line "adminArticles.title" "Title"
    ∷ line "adminArticles.taxonomy" "Category / Tags"
    ∷ line "adminArticles.publish" "Publish"
    ∷ line "adminArticles.archive" "Archive"
    ∷ line "adminArticles.confirmDelete" "Delete this article?"
    ∷ line "adminArticles.loadError" "Failed to load article list"
    ∷ line "adminArticles.statusError" "Failed to update status"
    ∷ line "adminArticles.deleteError" "Failed to delete"
    ∷ line "adminArticles.allStatus" "All statuses"
    ∷ line "adminArticles.allCategories" "All categories"
    ∷ line "adminArticles.allTags" "All tags"
    ∷ line "articleEditor.editTitle" "Edit Article"
    ∷ line "articleEditor.newTitle" "New Article"
    ∷ line "articleEditor.save" "Save"
    ∷ line "articleEditor.titlePlaceholder" "Title"
    ∷ line "articleEditor.slugPlaceholder" "Slug"
    ∷ line "articleEditor.coverPlaceholder" "Cover URL"
    ∷ line "articleEditor.chooseCategory" "Choose category..."
    ∷ line "articleEditor.tags" "Tags:"
    ∷ line "articleEditor.summary" "Summary"
    ∷ line "articleEditor.content" "Body (Markdown)..."
    ∷ line "articleEditor.depsError" "Failed to load categories and tags"
    ∷ line "articleEditor.saveError" "Failed to save"
    ∷ line "articleEditor.contentTooLarge" "Content must not exceed {limit} UTF-8 bytes"
    ∷ line "articleEditor.summaryTooLarge" "Summary must not exceed {limit} UTF-8 bytes"
    ∷ line "articleEditor.addCategory" "Add Category"
    ∷ line "articleEditor.addTag" "Add Tag"
    ∷ line "articleEditor.categoryName" "Category name"
    ∷ line "articleEditor.tagName" "Tag name"
    ∷ line "articleEditor.slug" "Slug"
    ∷ line "articleEditor.createCategoryError" "Failed to create category"
    ∷ line "articleEditor.createTagError" "Failed to create tag"
    ∷ line "articleEditor.categoryLabel" "Category:"
    ∷ line "articleEditor.categorySearchPlaceholder" "Type a category..."
    ∷ line "articleEditor.tagSearchPlaceholder" "Type a tag..."
    ∷ line "articleEditor.createCategoryOption" "Create category \"{value}\""
    ∷ []
