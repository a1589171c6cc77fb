-- ===== src/Translations/ZhA.antt =====
-- frontend/src/i18n.ts: part 1 of 7 of the dictionary `zh`, in the order of the source.
use notes_of_ashen.Base.{List, [], ◌∷◌}
use notes_of_ashen.Translations.Lines.{Line, line}

unfoldable pub zh_a : List Line
zh_a =
    line "auth.captcha" "图形验证码"
    ∷ line "auth.captchaLoading" "加载中"
    ∷ line "auth.refreshCaptcha" "刷新验证码"
    ∷ line "auth.captchaError" "图形验证码加载失败"
    ∷ line "auth.emailCode" "邮箱验证码"
    ∷ line "auth.sendEmailCode" "发送验证码"
    ∷ line "auth.sendingEmailCode" "发送中..."
    ∷ line "auth.emailCodeSent" "验证码已发送，请查收邮箱。"
    ∷ line "auth.sendEmailCodeError" "验证码发送失败"
    ∷ line "auth.forgotPassword" "忘记密码？"
    ∷ line "auth.forgotPasswordTitle" "找回密码"
    ∷ line "auth.resetPasswordSubmit" "重置密码"
    ∷ line "auth.resetPasswordSubmitting" "重置中..."
    ∷ line "auth.resetPasswordSuccess" "密码已重置，请重新登录。"
    ∷ line "auth.resetPasswordError" "密码重置失败"
    ∷ line "nav.search" "寻章"
    ∷ line "home.searchCurtainPlaceholder" "标题、摘要，或正文片段"
    ∷ line "home.searchSubmit" "搜索"
    ∷ line "home.activeSearch" "正在搜索“{keyword}”"
    ∷ line "home.activeFilters" "当前已启用筛选"
    ∷ line "home.clearFiltersPoetic" "清除筛选"
    ∷ line "home.heroKicker" "一份缓慢生长的个人刊物"
    ∷ line "home.heroBrowse" "开始阅读"
    ∷ line "home.featuredRead" "阅读全文"
    ∷ line "home.featuredLabel" "精选文章"
    ∷ line "home.defaultSiteDescription" "一份以墨为灯、缓慢书写的个人博客。"
    ∷ line "home.emptyKicker" "静候新篇"
    ∷ line "home.emptyTitle" "卷帙未盈。"
    ∷ line "home.emptyDescription" "新的札记正在酝酿，稍后再来看看。"
    ∷ line "home.loadErrorTitle" "未能展开札记"
    ∷ line "home.latestTitle" "最新札记"
    ∷ line "home.latestLabel" "LATEST NOTE"
    ∷ line "home.articleCountOne" "已收录 {total} 篇文章"
    ∷ line "home.articleCount" "已收录 {total} 篇文章"
    ∷ line "home.journalKicker" "札记与随笔"
    ∷ line "home.ctaKicker" "继续探索"
    ∷ line "home.ctaTitle" "循着文字，去往更深处"
    ∷ line "home.ctaDescription" "浏览完整归档，或从标题、摘要与正文中寻找下一篇想读的文章。"
    ∷ line "home.ctaArchive" "浏览归档"
    ∷ line "home.ctaSearch" "搜索文章"
    ∷ line "home.moreComing" "更多札记正在路上。"
    ∷ line "archive.kicker" "旧章与流年"
    ∷ line "articleDetail.kicker" "札记正文"
    ∷ line "auth.loginKicker" "欢迎回来"
    ∷ line "auth.registerKicker" "创建你的账户"
    ∷ line "auth.recoveryKicker" "账户找回"
    ∷ line "profile.kicker" "账户与安全"
    ∷ line "dashboard.kicker" "全局概览"
    ∷ line "article.coverHidden" "封面暂不可见"
    ∷ line "brand.name" "灰之札记"
    ∷ line "brand.nameEn" "Notes of Ashen"
    ∷ line "nav.home" "首页"
    ∷ line "nav.archive" "归档"
    ∷ line "nav.admin" "管理"
    ∷ line "nav.login" "登录"
    ∷ line "nav.logout" "退出"
    ∷ line "nav.profile" "自序"
    ∷ line "nav.menuOpen" "打开菜单"
    ∷ line "nav.menuClose" "关闭菜单"
    ∷ line "nav.projects" "项目"
    ∷ line "nav.ask" "问答"
    ∷ line "preferences.trigger" "偏好"
    ∷ line "preferences.openLabel" "打开语言和主题设置"
    ∷ line "preferences.title" "语言与主题"
    ∷ line "preferences.subtitle" "选择喜欢的阅读风格，偏好会保存在当前浏览器。"
    ∷ line "preferences.styleTitle" "主题风格"
    ∷ line "preferences.style.editorial" "原有刊物"
    ∷ line "preferences.style.soft-brutalism" "柔和新粗野"
    ∷ line "preferences.style.japanese-paper" "日式纸本"
    ∷ line "preferences.style.swiss" "瑞士平面"
    ∷ line "preferences.style.neo-brutalism" "经典新粗野"
    ∷ line "preferences.style.dark-academia" "暗色书房"
    ∷ line "preferences.styleDescription.neo-brutalism" "亮色块 · 粗黑边 · 硬阴影"
    ∷ line "preferences.styleDescription.dark-academia" "羊皮纸 · 胡桃木 · 黄铜"
    ∷ line "admin.group.content" "内容管理"
    ∷ line "admin.group.analytics" "数据分析"
    ∷ line "admin.group.system" "系统配置"
    ∷ line "preferences.styleDescription.editorial" "暖纸 · 宋体 · 留白"
    ∷ line "preferences.styleDescription.soft-brutalism" "粉彩 · 描边 · 硬阴影"
    ∷ line "preferences.styleDescription.japanese-paper" "纸笺 · 朱印 · 细线"
    ∷ line "preferences.styleDescription.swiss" "网格 · 黑体 · 秩序"
    ∷ line "preferences.current" "当前：{value}"
    ∷ line "preferences.languageTitle" "语言"
    ∷ line "preferences.languageZh" "中文"
    ∷ line "preferences.languageEn" "English"
    ∷ line "preferences.themeTitle" "明暗模式"
    ∷ line "preferences.themeLight" "浅色"
    ∷ line "preferences.themeDark" "深色"
    ∷ line "preferences.themeSystem" "跟随系统"
    ∷ line "preferences.accentTitle" "主题色"
    ∷ line "preferences.accentDefault" "默认色"
    ∷ line "preferences.accentReset" "重置"
    ∷ line "toggle.language" "EN"
    ∷ line "toggle.languageLabel" "切换为英文"
    ∷ line "toggle.themeLight" "日"
    ∷ line "toggle.themeDark" "夜"
    ∷ line "toggle.themeToLight" "切换为浅色模式"
    ∷ line "toggle.themeToDark" "切换为深色模式"
    ∷ line "footer.poem" "山高水长，落笔生花。"
    ∷ line "footer.crafted" "以墨为灯，慢写人间。"
    ∷ line "common.loadingArticles" "文章加载中..."
    ∷ line "common.loadingArticle" "文章打开中..."
    ∷ line "common.loadingArchive" "归档加载中..."
    ∷ line "common.loadingAuth" "登录状态确认中..."
    ∷ line "common.loading" "展卷中..."
    ∷ line "common.retry" "重试"
    ∷ line "common.empty" "尚无墨迹。"
    ∷ line "common.emptyArticles" "卷帙未盈。"
    ∷ line "common.views" "阅读"
    ∷ line "common.backHome" "归卷首"
    ∷ line "common.name" "名称"
    ∷ line "common.description" "描述"
    ∷ line "common.byteUsage" "UTF-8 字节：{used}/{limit}"
    ∷ line "common.textTooLarge" "文本不能超过 {limit} 个 UTF-8 字节"
    ∷ line "common.action" "操作"
    ∷ line "common.status" "状态"
    ∷ line "common.time" "时间"
    ∷ line "common.save" "保存"
    ∷ line "common.cancel" "取消"
    ∷ []
