-- ===== src/Translations/ZhD.antt =====
-- frontend/src/i18n.ts: part 4 of 7 of the dictionary `zh`, in the order of the source.
use notes_of_ashen.Base.{List, [], ◌∷◌}
use notes_of_ashen.Translations.Lines.{Line, line}

unfoldable pub zh_d : List Line
zh_d =
    line "articleEditor.createTagOption" "创建标签“{value}”"
    ∷ line "articleEditor.noCategoryMatches" "暂无匹配分类"
    ∷ line "articleEditor.noTagMatches" "暂无匹配标签"
    ∷ line "articleEditor.clearCategory" "清除分类"
    ∷ line "articleEditor.removeTag" "移除标签"
    ∷ line "articleEditor.coverUrlError" "封面 URL 必须以 http:// 或 https:// 开头，或留空"
    ∷ line "articleEditor.titleRequired" "请填写文章标题"
    ∷ line "articleEditor.slugRequired" "请填写文章 Slug"
    ∷ line "articleEditor.aiMagic" "✨ AI"
    ∷ line "articleEditor.aiMetadata" "一键补全文章信息"
    ∷ line "articleEditor.aiSeoTitle" "SEO 标题"
    ∷ line "articleEditor.aiSeoDescription" "SEO 描述"
    ∷ line "articleEditor.aiSeoKeywords" "SEO 关键词"
    ∷ line "articleEditor.aiProofread" "语法纠错"
    ∷ line "articleEditor.aiPolish" "语气润色"
    ∷ line "articleEditor.aiExpand" "扩写当前段落"
    ∷ line "articleEditor.aiShorten" "缩写当前段落"
    ∷ line "articleEditor.aiTranslate" "翻译当前段落"
    ∷ line "articleEditor.aiProcessing" "AI 处理中"
    ∷ line "articleEditor.aiContentRequired" "请先填写正文内容。"
    ∷ line "articleEditor.aiContentChanged" "正文已修改，请重新生成 AI 结果后再应用。"
    ∷ line "articleEditor.aiMetadataApplied" "AI 已填入摘要与 SEO 字段，请检查后再保存。"
    ∷ line "articleEditor.aiCompletionApplied" "AI 已补全 {count} 个空字段，已有内容保持不变。"
    ∷ line "articleEditor.aiTaxonomyTitle" "AI 分类与标签建议"
    ∷ line "articleEditor.aiTaxonomyHint" "以下内容仅为文字建议，尚未选择或创建，请确认后手动应用。"
    ∷ line "articleEditor.aiCategorySuggestion" "分类建议"
    ∷ line "articleEditor.aiTagSuggestions" "标签建议"
    ∷ line "articleEditor.aiResultReady" "{action}结果已生成，请确认后应用。"
    ∷ line "articleEditor.aiResultTitle" "AI {action}结果"
    ∷ line "articleEditor.aiApply" "应用到正文"
    ∷ line "articleEditor.aiContentApplied" "AI 结果已应用到正文，请检查后再保存。"
    ∷ line "articleEditor.aiError" "AI 辅助失败"
    ∷ line "articleEditor.generateSummaryOnSave" "保存时生成核心摘要"
    ∷ line "articleEditor.generateSummaryHint" "默认仅在摘要为空时开启；AI 会尽量补齐摘要、SEO 描述和关键词，失败也会继续保存文章。"
    ∷ line "articleEditor.localDraftTitle" "发现本地自动保存草稿"
    ∷ line "articleEditor.localDraftDesc" "保存时间：{time}"
    ∷ line "articleEditor.restoreDraft" "恢复草稿"
    ∷ line "articleEditor.discardDraft" "丢弃草稿"
    ∷ line "articleEditor.draftRestored" "已恢复本地草稿。"
    ∷ line "articleEditor.draftDiscarded" "已丢弃本地草稿。"
    ∷ line "articleEditor.priority" "显示优先级"
    ∷ line "articleEditor.scheduledPublishHint" "当前文章会先进入定时发布状态，到达设定时间后在前台可见。"
    ∷ line "aiAction.complete" "文章信息补全"
    ∷ line "aiAction.metadata" "摘要与 SEO"
    ∷ line "aiAction.proofread" "纠错"
    ∷ line "aiAction.polish" "润色"
    ∷ line "aiAction.expand" "扩写"
    ∷ line "aiAction.shorten" "缩写"
    ∷ line "aiAction.translate" "翻译"
    ∷ line "articleAdmin.import" "导入 Markdown"
    ∷ line "articleAdmin.importing" "导入中..."
    ∷ line "articleAdmin.importError" "Markdown 导入失败"
    ∷ line "articleAdmin.export" "导出"
    ∷ line "articleAdmin.exportError" "Markdown 导出失败"
    ∷ line "articleAdmin.preview" "预览"
    ∷ line "articleAdmin.versions" "版本"
    ∷ line "articleAdmin.scheduled" "定时发布"
    ∷ line "articleAdmin.priority" "优先级"
    ∷ line "projectModal.close" "关闭项目详情"
    ∷ line "projectModal.detailsTitle" "项目详情"
    ∷ line "projectModal.empty" "该项目暂无详情内容"
    ∷ line "projectAdmin.title" "项目管理"
    ∷ line "projectAdmin.defaultTitle" "项目"
    ∷ line "projectAdmin.loading" "项目内容加载中..."
    ∷ line "projectAdmin.loadError" "项目内容加载失败"
    ∷ line "projectAdmin.saveError" "项目内容保存失败"
    ∷ line "projectAdmin.saved" "项目内容已保存"
    ∷ line "projectAdmin.pageTitle" "页面标题"
    ∷ line "projectAdmin.subtitle" "副标题"
    ∷ line "projectAdmin.empty" "还没有项目。"
    ∷ line "projectAdmin.add" "新增项目"
    ∷ line "projectAdmin.save" "保存项目"
    ∷ line "projectAdmin.saving" "保存中..."
    ∷ line "projectAdmin.reset" "重置"
    ∷ line "projectAdmin.confirmDelete" "确认删除这个项目？"
    ∷ line "projectAdmin.untitled" "未命名项目"
    ∷ line "projectAdmin.noTags" "暂无标签"
    ∷ line "projectAdmin.up" "上移"
    ∷ line "projectAdmin.down" "下移"
    ∷ line "projectAdmin.collapse" "收起"
    ∷ line "projectAdmin.expand" "展开"
    ∷ line "projectAdmin.projectTitle" "项目标题"
    ∷ line "projectAdmin.role" "角色"
    ∷ line "projectAdmin.period" "周期"
    ∷ line "projectAdmin.tags" "技术标签"
    ∷ line "projectAdmin.coverUrl" "封面 URL"
    ∷ line "projectAdmin.demoUrl" "演示 URL"
    ∷ line "projectAdmin.repoUrl" "代码仓库 URL"
    ∷ line "projectAdmin.featured" "精选项目"
    ∷ line "projectAdmin.summary" "摘要"
    ∷ line "projectAdmin.detailEditor" "详情 Markdown"
    ∷ line "projectAdmin.detailPlaceholder" "填写项目详情 Markdown..."
    ∷ line "projectAdmin.preview" "详情预览"
    ∷ line "projectAdmin.emptyPreview" "暂无预览内容"
    ∷ line "projectAdmin.projectNo" "项目 {value}"
    ∷ line "taxonomy.listCategoryError" "分类列表加载失败"
    ∷ line "taxonomy.listTagError" "标签列表加载失败"
    ∷ line "taxonomy.submitError" "操作失败"
    ∷ line "taxonomy.deleteCategoryError" "删除失败，可能存在关联文章"
    ∷ line "taxonomy.deleteTagError" "删除失败"
    ∷ line "taxonomy.confirmDelete" "确认删除？"
    ∷ line "taxonomy.add" "新增"
    ∷ line "users.account" "账号"
    ∷ line "users.nickname" "昵称"
    ∷ line "users.role" "角色"
    ∷ line "users.activate" "启用"
    ∷ line "users.disable" "禁用"
    ∷ line "users.confirmStatus" "确认{action}该用户？"
    ∷ line "users.confirmRole" "确认将该用户角色改为「{role}」？"
    ∷ line "users.loadError" "用户列表加载失败"
    ∷ line "users.actionError" "操作失败"
    ∷ line "settings.registrationTitle" "注册开关"
    ∷ line "settings.registrationDesc" "关闭后前台会隐藏注册入口，后端也会拒绝新账号注册；首个管理员初始化不受影响。"
    ∷ line "settings.registrationEnabled" "允许注册"
    ∷ line "settings.registrationDisabled" "关闭注册"
    ∷ line "settings.homeLayoutTitle" "首页文章布局"
    ∷ line "settings.homeLayoutDesc" "控制首页文章列表的封面与文字排列方式。"
    ∷ line "settings.homeLayoutStandard" "默认排列"
    ∷ line "settings.homeLayoutStandardDesc" "文章以多列卡片排列，封面位于文字上方。"
    ∷ []
