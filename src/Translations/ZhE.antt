-- ===== src/Translations/ZhE.antt =====
-- frontend/src/i18n.ts: part 5 of 7 of the dictionary `zh`, in the order of the source.
use notes_of_ashen.Base.{List, [], ◌∷◌}
use notes_of_ashen.Translations.Lines.{Line, line}

unfoldable pub zh_e : List Line
zh_e =
    line "settings.homeLayoutAlternating" "交错排列"
    ∷ line "settings.homeLayoutAlternatingDesc" "有封面的文章左右交替，无封面文章不打断节奏。"
    ∷ line "settings.homeModulesTitle" "首页模块显示"
    ∷ line "settings.homeModulesDesc" "控制首页辅助浏览模块是否显示。"
    ∷ line "settings.homeCtaModule" "继续探索模块"
    ∷ line "settings.moduleVisible" "模块显示"
    ∷ line "settings.moduleHidden" "模块隐藏"
    ∷ line "settings.saved" "站点设置已保存"
    ∷ line "settings.saveError" "站点设置保存失败"
    ∷ line "siteSettings.loadError" "站点设置加载失败，请重试。"
    ∷ line "settings.publicPagesTitle" "前台页面控制"
    ∷ line "settings.publicPagesDesc" "启用决定路由是否可访问；隐藏只控制是否出现在前台导航中。"
    ∷ line "settings.projectsPage" "项目页面"
    ∷ line "settings.projectsPageDesc" "控制 /projects 页面和导航入口。"
    ∷ line "settings.ragChatPage" "AI 问答页面"
    ∷ line "settings.ragChatPageDesc" "控制 /ask 页面、导航入口和最低访问角色；模型与知识库连接在“知识库配置”中管理。"
    ∷ line "settings.ragChatAccess" "最低访问角色"
    ∷ line "settings.ragAccessGuest" "游客"
    ∷ line "settings.ragAccessUser" "登录用户"
    ∷ line "settings.ragAccessEditor" "编辑及管理员"
    ∷ line "settings.enabled" "已启用"
    ∷ line "settings.disabled" "已禁用"
    ∷ line "settings.navHidden" "导航隐藏"
    ∷ line "settings.navVisible" "导航显示"
    ∷ line "settings.seoTitle" "站点 SEO"
    ∷ line "settings.seoDesc" "用于页面标题、默认描述、关键词以及 RSS/Sitemap 链接生成。"
    ∷ line "settings.siteTitle" "站点标题"
    ∷ line "settings.siteBaseUrl" "站点地址"
    ∷ line "settings.siteDescription" "站点描述"
    ∷ line "settings.siteKeywords" "关键词"
    ∷ line "ragChat.kicker" "ASK THE ARCHIVE"
    ∷ line "ragChat.title" "与文章对话"
    ∷ line "ragChat.subtitle" "答案仅基于已公开的文章，并附上可回查的引用来源。"
    ∷ line "ragChat.history" "会话记录"
    ∷ line "ragChat.newChat" "新建问答"
    ∷ line "ragChat.historyLoading" "正在载入会话…"
    ∷ line "ragChat.historyEmpty" "还没有保存的问答。"
    ∷ line "ragChat.loadSessionsError" "会话列表加载失败"
    ∷ line "ragChat.sessionLoadError" "会话内容加载失败"
    ∷ line "ragChat.deleteSession" "删除会话"
    ∷ line "ragChat.deleteConfirm" "确定删除这条问答会话吗？此操作不能撤销。"
    ∷ line "ragChat.deleteError" "删除会话失败"
    ∷ line "ragChat.askPlaceholder" "写下关于本站文章的问题…"
    ∷ line "ragChat.send" "开始提问"
    ∷ line "ragChat.stop" "停止生成"
    ∷ line "ragChat.generating" "正在整理文章线索…"
    ∷ line "ragChat.questionRequired" "请先写下问题。"
    ∷ line "ragChat.sendError" "问答请求失败，请稍后重试。"
    ∷ line "ragChat.interrupted" "生成已停止，以下内容可能不完整。"
    ∷ line "ragChat.retry" "重新生成"
    ∷ line "ragChat.copy" "复制"
    ∷ line "ragChat.copied" "已复制"
    ∷ line "ragChat.you" "你"
    ∷ line "ragChat.assistant" "文章问答"
    ∷ line "ragChat.sources" "参考文章"
    ∷ line "ragChat.source" "来源"
    ∷ line "ragChat.sourcesUpdated" "此回答的引用文章已更新；为避免展示过期片段，当前仅保留文章链接，请以最新正文为准。"
    ∷ line "ragChat.unavailable" "此回答引用的文章已不再公开，因此内容暂不可用。"
    ∷ line "ragChat.emptyTitle" "从一篇文章开始发问"
    ∷ line "ragChat.emptyDesc" "我会从已公开的文章中检索证据；找不到依据时会明确说明。"
    ∷ line "ragChat.signInRequired" "此问答页仅对登录用户开放。"
    ∷ line "ragChat.editorRequired" "此问答页仅对编辑和管理员开放。"
    ∷ line "ragChat.accessDenied" "你暂时没有访问此问答页的权限。"
    ∷ line "ragChat.signIn" "去登录"
    ∷ line "ragChat.showHistory" "展开记录"
    ∷ line "ragChat.hideHistory" "收起记录"
    ∷ line "ragChat.historySearch" "搜索会话…"
    ∷ line "ragChat.historySearchEmpty" "没有匹配的会话。"
    ∷ line "ragChat.backToBottom" "回到底部"
    ∷ line "ragSettings.title" "RAG 知识库配置"
    ∷ line "ragSettings.loading" "正在载入知识库配置…"
    ∷ line "ragSettings.loadError" "知识库配置加载失败"
    ∷ line "ragSettings.save" "保存知识库配置"
    ∷ line "ragSettings.saving" "保存中…"
    ∷ line "ragSettings.saved" "知识库配置已保存。"
    ∷ line "ragSettings.saveError" "保存知识库配置失败"
    ∷ line "ragSettings.enableTitle" "启用 RAG 知识库"
    ∷ line "ragSettings.enableDesc" "启用后，公开文章会异步建立向量索引，并可供 AI 问答检索。"
    ∷ line "ragSettings.providerTitle" "模型服务"
    ∷ line "ragSettings.providerDesc" "聊天与 Embedding 使用 OpenAI 兼容地址；重排使用独立服务地址。API Key 会加密保存。"
    ∷ line "ragSettings.chatBaseUrl" "聊天 Base URL"
    ∷ line "ragSettings.embeddingBaseUrl" "Embedding Base URL"
    ∷ line "ragSettings.rerankUrl" "Rerank URL"
    ∷ line "ragSettings.apiKey" "RAG API Key"
    ∷ line "ragSettings.apiKeyPlaceholder" "输入新的 API Key；留空保留现有值"
    ∷ line "ragSettings.apiKeyConfigured" "已保存 API Key；留空将保持不变。"
    ∷ line "ragSettings.configured" "API Key 已配置"
    ∷ line "ragSettings.notConfigured" "尚未配置 API Key"
    ∷ line "ragSettings.clearKey" "清除已保存的 API Key"
    ∷ line "ragSettings.keyNeedsUpdate" "请重新录入并保存 API Key，以迁移到最新加密格式。"
    ∷ line "ragSettings.chatModel" "聊天模型"
    ∷ line "ragSettings.embeddingModel" "Embedding 模型"
    ∷ line "ragSettings.embeddingDimensions" "向量维度"
    ∷ line "ragSettings.rerankModel" "重排模型"
    ∷ line "ragSettings.retention" "会话保留天数"
    ∷ line "ragSettings.retentionHint" "0 表示永久保留；游客会话不会保存到服务端。"
    ∷ line "ragSettings.retentionForever" "永久保留"
    ∷ line "ragSettings.retentionDays" "保留 {days} 天"
    ∷ line "ragSettings.retentionInvalid" "会话保留期必须选择预设选项。"
    ∷ line "ragSettings.publicTitle" "问答页面与访问权限"
    ∷ line "ragSettings.publicDesc" "页面启用后，仍需知识库已就绪才可发起问答。"
    ∷ line "ragSettings.pageEnabled" "启用 /ask 页面"
    ∷ line "ragSettings.navVisible" "在导航中显示"
    ∷ line "ragSettings.accessLevel" "最低访问角色"
    ∷ line "ragSettings.statusTitle" "索引状态"
    ∷ line "ragSettings.statusDesc" "索引由文章变更自动同步；修改 Embedding 配置后需要重建。"
    ∷ line "ragSettings.status.ready" "已就绪"
    ∷ line "ragSettings.status.rebuilding" "重建中"
    ∷ line "ragSettings.status.needs_rebuild" "需要重建"
    ∷ line "ragSettings.status.error" "异常"
    ∷ line "ragSettings.status.disabled" "未启用"
    ∷ line "ragSettings.queueDepth" "待处理任务：{count}"
    ∷ line "ragSettings.indexedArticles" "已索引文章：{count}"
    ∷ line "ragSettings.indexedChunks" "已索引片段：{count}"
    ∷ line "ragSettings.rebuild" "重建知识库"
    ∷ line "ragSettings.rebuilding" "正在重建…"
    ∷ line "ragSettings.rebuildConfirm" "确定重建整个知识库吗？重建期间 AI 问答会暂时不可用。"
    ∷ line "ragSettings.testChat" "测试聊天"
    ∷ line "ragSettings.testEmbedding" "测试 Embedding"
    ∷ []
