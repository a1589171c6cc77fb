-- ===== src/Translations/ZhC.antt =====
-- frontend/src/i18n.ts: part 3 of 7 of the dictionary `zh`, in the order of the source.
use notes_of_ashen.Base.{List, [], ◌∷◌}
use notes_of_ashen.Translations.Lines.{Line, line}

unfoldable pub zh_c : List Line
zh_c =
    line "auth.nickname" "昵称"
    ∷ line "auth.nicknameOptional" "昵称（可选）"
    ∷ line "auth.avatarOptional" "头像 URL（可选）"
    ∷ line "auth.avatarUrl" "头像 URL"
    ∷ line "auth.password" "密码"
    ∷ line "auth.passwordWithHint" "密码（至少 8 位）"
    ∷ line "auth.confirmPassword" "确认密码"
    ∷ line "auth.confirmPasswordWithHint" "确认密码（再输入一次）"
    ∷ line "auth.showPassword" "显示"
    ∷ line "auth.hidePassword" "隐藏"
    ∷ line "auth.passwordMismatch" "两次密码不一致，请重新确认。"
    ∷ line "auth.oldPassword" "旧密码"
    ∷ line "auth.newPassword" "新密码"
    ∷ line "auth.loginSubmit" "登录"
    ∷ line "auth.loginSubmitting" "登录中..."
    ∷ line "auth.registerSubmit" "注册"
    ∷ line "auth.registerSubmitting" "注册中..."
    ∷ line "auth.noAccount" "还没有账号？"
    ∷ line "auth.goRegister" "去注册"
    ∷ line "auth.hasAccount" "已有账号？"
    ∷ line "auth.goLogin" "去登录"
    ∷ line "auth.loginError" "登录失败，请检查账号和密码"
    ∷ line "auth.registerError" "注册失败，请检查填写信息"
    ∷ line "auth.registrationDisabled" "注册已关闭，请联系管理员。"
    ∷ line "profile.title" "自序"
    ∷ line "profile.accountLabel" "账号"
    ∷ line "profile.nicknameLabel" "昵称"
    ∷ line "profile.emailLabel" "邮箱"
    ∷ line "profile.avatarLabel" "头像 URL"
    ∷ line "profile.passwordTitle" "修改密码"
    ∷ line "profile.updateProfile" "更新资料"
    ∷ line "profile.updatingProfile" "更新中..."
    ∷ line "profile.updatePassword" "修改密码"
    ∷ line "profile.updatingPassword" "修改中..."
    ∷ line "profile.updated" "资料已更新"
    ∷ line "profile.passwordUpdated" "密码已更新"
    ∷ line "auth.passwordChangedLogin" "密码已更新，所有会话均已退出，请重新登录。"
    ∷ line "profile.updateError" "更新失败"
    ∷ line "protected.forbidden" "没有权限访问此页面。"
    ∷ line "notFound.kicker" "迷途札"
    ∷ line "notFound.title" "此路已入云深处"
    ∷ line "notFound.message" "你来时的那一页，像一枚落叶，已被风收入山色。且循墨痕归去，灯下仍有文章等你。"
    ∷ line "notFound.back" "循墨归去"
    ∷ line "admin.title" "管理"
    ∷ line "admin.dashboard" "墨案总览"
    ∷ line "admin.articles" "文章管理"
    ∷ line "admin.categories" "分类管理"
    ∷ line "admin.tags" "标签管理"
    ∷ line "admin.users" "用户管理"
    ∷ line "admin.logs" "操作日志"
    ∷ line "admin.settings" "站点设置"
    ∷ line "admin.projects" "项目管理"
    ∷ line "admin.aiSettings" "AI 配置"
    ∷ line "admin.ragSettings" "知识库配置"
    ∷ line "admin.breadcrumb.home" "管理"
    ∷ line "dashboard.title" "墨案总览"
    ∷ line "dashboard.loading" "墨案清点中..."
    ∷ line "dashboard.loadError" "墨案数据加载失败"
    ∷ line "dashboard.empty" "暂无数据"
    ∷ line "dashboard.articleTotal" "卷帙总数"
    ∷ line "dashboard.publishedTotal" "已上卷"
    ∷ line "dashboard.draftTotal" "草稿笺"
    ∷ line "dashboard.scheduledTotal" "候时发布"
    ∷ line "dashboard.viewTotal" "阅览流光"
    ∷ line "dashboard.likeTotal" "点赞回响"
    ∷ line "dashboard.userTotal" "来客名册"
    ∷ line "dashboard.categoryTotal" "篇目门类"
    ∷ line "dashboard.tagTotal" "墨痕标签"
    ∷ line "dashboard.popularArticles" "常被翻阅"
    ∷ line "dashboard.recentArticles" "近来笔记"
    ∷ line "dashboard.recentLogs" "近来行迹"
    ∷ line "dashboard.trafficTitle" "访问趋势"
    ∷ line "dashboard.trafficSubtitle" "过去 30 天公开页面的阅览流光（PV）与来客足迹（UV）"
    ∷ line "dashboard.todayPv" "今日阅览流光（PV）"
    ∷ line "dashboard.todayUv" "今日来客足迹（UV）"
    ∷ line "dashboard.trafficLegend" "访问趋势图例"
    ∷ line "dashboard.trafficLegendHelp" "点击图例可突出一条曲线，再次点击可恢复全部显示。"
    ∷ line "dashboard.referers" "访问来源"
    ∷ line "dashboard.refererDirect" "直接访问"
    ∷ line "dashboard.refererInternal" "站内跳转"
    ∷ line "dashboard.refererSearch" "搜索引擎"
    ∷ line "dashboard.refererExternal" "外部网站"
    ∷ line "adminArticles.new" "新建文章"
    ∷ line "adminArticles.title" "标题"
    ∷ line "adminArticles.taxonomy" "分类 / 标签"
    ∷ line "adminArticles.publish" "发布"
    ∷ line "adminArticles.archive" "归档"
    ∷ line "adminArticles.confirmDelete" "确认删除这篇文章？"
    ∷ line "adminArticles.loadError" "文章列表加载失败"
    ∷ line "adminArticles.statusError" "状态更新失败"
    ∷ line "adminArticles.deleteError" "删除失败"
    ∷ line "adminArticles.allStatus" "全部状态"
    ∷ line "adminArticles.allCategories" "全部分类"
    ∷ line "adminArticles.allTags" "全部标签"
    ∷ line "articleEditor.editTitle" "编辑文章"
    ∷ line "articleEditor.newTitle" "新建文章"
    ∷ line "articleEditor.save" "保存"
    ∷ line "articleEditor.titlePlaceholder" "标题"
    ∷ line "articleEditor.slugPlaceholder" "Slug"
    ∷ line "articleEditor.coverPlaceholder" "封面 URL"
    ∷ line "articleEditor.chooseCategory" "选择分类..."
    ∷ line "articleEditor.tags" "标签："
    ∷ line "articleEditor.summary" "摘要"
    ∷ line "articleEditor.content" "正文（Markdown）..."
    ∷ line "articleEditor.depsError" "分类和标签加载失败"
    ∷ line "articleEditor.saveError" "保存失败"
    ∷ line "articleEditor.contentTooLarge" "正文不能超过 {limit} 个 UTF-8 字节"
    ∷ line "articleEditor.summaryTooLarge" "摘要不能超过 {limit} 个 UTF-8 字节"
    ∷ line "articleEditor.addCategory" "新增分类"
    ∷ line "articleEditor.addTag" "新增标签"
    ∷ line "articleEditor.categoryName" "分类名称"
    ∷ line "articleEditor.tagName" "标签名称"
    ∷ line "articleEditor.slug" "Slug"
    ∷ line "articleEditor.createCategoryError" "新增分类失败"
    ∷ line "articleEditor.createTagError" "新增标签失败"
    ∷ line "articleEditor.categoryLabel" "分类："
    ∷ line "articleEditor.categorySearchPlaceholder" "输入分类名称..."
    ∷ line "articleEditor.tagSearchPlaceholder" "输入标签名称..."
    ∷ line "articleEditor.createCategoryOption" "创建分类“{value}”"
    ∷ []
