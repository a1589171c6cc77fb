-- ===== src/Translations/ZhB.antt =====
-- frontend/src/i18n.ts: part 2 of 7 of the dictionary `zh`, in the order of the source.
use notes_of_ashen.Base.{List, [], ◌∷◌}
use notes_of_ashen.Translations.Lines.{Line, line}

unfoldable pub zh_b : List Line
zh_b =
    line "common.confirm" "确认"
    ∷ line "common.edit" "编辑"
    ∷ line "common.delete" "删除"
    ∷ line "common.remove" "移除"
    ∷ line "common.dismiss" "关闭"
    ∷ line "common.breadcrumb" "面包屑导航"
    ∷ line "common.processing" "处理中..."
    ∷ line "common.saving" "保存中..."
    ∷ line "common.noCategory" "篇目未分"
    ∷ line "common.noTag" "墨痕未落"
    ∷ line "common.pinned" "置顶"
    ∷ line "imageLightbox.close" "关闭图片查看"
    ∷ line "imageLightbox.viewImage" "查看图片"
    ∷ line "imageLightbox.viewImageWithAlt" "查看图片：{alt}"
    ∷ line "markdownTable.table" "表格"
    ∷ line "markdownTable.collapse" "收起"
    ∷ line "markdownTable.expand" "展开"
    ∷ line "articlePreview.loading" "预览加载中..."
    ∷ line "articlePreview.loadError" "预览加载失败"
    ∷ line "articlePreview.missing" "文章不存在"
    ∷ line "articlePreview.notice" "草稿预览，不会增加阅读量"
    ∷ line "articlePreview.backToEditor" "返回编辑"
    ∷ line "articleVersion.title" "版本历史"
    ∷ line "articleVersion.backToEditor" "返回编辑"
    ∷ line "articleVersion.empty" "暂无历史版本"
    ∷ line "articleVersion.version" "版本"
    ∷ line "articleVersion.articleTitle" "标题"
    ∷ line "articleVersion.status" "状态"
    ∷ line "articleVersion.savedAt" "保存时间"
    ∷ line "articleVersion.actions" "操作"
    ∷ line "articleVersion.inspect" "查看"
    ∷ line "articleVersion.restore" "恢复"
    ∷ line "articleVersion.summary" "摘要"
    ∷ line "articleVersion.historyLoadError" "版本历史加载失败"
    ∷ line "articleVersion.detailLoadError" "版本详情加载失败"
    ∷ line "articleVersion.restoreError" "版本恢复失败"
    ∷ line "articleVersion.confirmRestore" "确认恢复到版本 #{versionNo}？当前内容会先保存为新的历史版本。"
    ∷ line "pagination.prev" "上一页"
    ∷ line "pagination.next" "下一页"
    ∷ line "pagination.page" "第 {current} / {total} 页"
    ∷ line "pagination.jumpLabel" "跳至"
    ∷ line "pagination.jumpGo" "前往"
    ∷ line "markdownCode.copy" "录墨"
    ∷ line "markdownCode.copied" "已录"
    ∷ line "markdownCode.mermaidMode" "Mermaid 显示模式"
    ∷ line "markdownCode.mermaidDiagram" "图"
    ∷ line "markdownCode.mermaidCode" "代码"
    ∷ line "markdownCode.mermaidDiagramLabel" "Mermaid 图表，可拖动平移并缩放"
    ∷ line "markdownCode.mermaidZoom" "Mermaid 图表缩放"
    ∷ line "markdownCode.mermaidZoomOut" "缩小 Mermaid 图表"
    ∷ line "markdownCode.mermaidZoomIn" "放大 Mermaid 图表"
    ∷ line "markdownCode.mermaidResetZoom" "重置 Mermaid 图表视图"
    ∷ line "a11y.skipToContent" "跳至主内容"
    ∷ line "home.loadError" "文章列表加载失败"
    ∷ line "home.searchPlaceholder" "搜索标题、摘要或正文"
    ∷ line "home.search" "寻章"
    ∷ line "home.clearFilters" "清空"
    ∷ line "search.kicker" "SEEK THE TRACE"
    ∷ line "search.title" "寻章"
    ∷ line "search.subtitle" "输入关键词，在标题、摘要与正文中寻找相关的文章。"
    ∷ line "search.inputLabel" "输入要搜索的内容"
    ∷ line "search.placeholder" "标题、摘要，或正文片段"
    ∷ line "search.submit" "寻章"
    ∷ line "search.clear" "清空"
    ∷ line "search.idleTitle" "还没有开始搜索。"
    ∷ line "search.idleText" "写下一个关键词，或者从归档中的分类与标签进入。"
    ∷ line "search.resultsKicker" "搜索结果"
    ∷ line "search.resultsFor" "为“{keyword}”找到 {total} 篇文章。"
    ∷ line "search.resultsFiltered" "筛选到 {total} 篇文章。"
    ∷ line "search.loading" "搜索中..."
    ∷ line "search.emptyTitle" "没有找到匹配的文章。"
    ∷ line "search.emptyText" "换一个关键词，或清空筛选后再试。"
    ∷ line "search.loadError" "搜索失败，请稍后重试"
    ∷ line "article.loadError" "文章加载失败"
    ∷ line "article.missing" "这篇文章不存在或暂不可访问。"
    ∷ line "articleDetail.likeError" "点赞失败"
    ∷ line "articleDetail.likes" "点赞"
    ∷ line "articleDetail.liked" "已点赞"
    ∷ line "articleDetail.liking" "提交中"
    ∷ line "articleDetail.like" "点赞"
    ∷ line "articleDetail.previous" "上一篇"
    ∷ line "articleDetail.next" "下一篇"
    ∷ line "articleDetail.related" "相关文章"
    ∷ line "articleDetail.viewImage" "查看大图：{title}"
    ∷ line "articleToc.title" "目录"
    ∷ line "articleToc.collapse" "收起目录"
    ∷ line "articleToc.expand" "展开目录"
    ∷ line "archive.titleCategories" "篇章归处"
    ∷ line "archive.titleTags" "墨迹线索"
    ∷ line "archive.loadError" "归档数据加载失败"
    ∷ line "archive.historyTitle" "岁月成卷"
    ∷ line "archive.historyKicker" "A CHRONICLE OF WORDS"
    ∷ line "archive.historyDescription" "循着年月翻阅旧章，让每一次落笔，都在光阴里重新相逢。"
    ∷ line "archive.historyLoading" "正从流年里拾取旧章…"
    ∷ line "archive.historyLoadError" "旧章暂未归来，请稍后再试"
    ∷ line "archive.filtersLoadError" "篇章线索暂未取回，请稍后再试"
    ∷ line "archive.emptyHistory" "纸页尚白，静候第一行墨迹。"
    ∷ line "archive.undated" "散落年月之外"
    ∷ line "archive.expand" "展开 {label}"
    ∷ line "archive.collapse" "收起 {label}"
    ∷ line "archive.articleCount" "{count} 篇"
    ∷ line "archive.articleCountOne" "{count} 篇"
    ∷ line "projects.loading" "项目加载中..."
    ∷ line "projects.loadError" "项目内容加载失败"
    ∷ line "projects.empty" "项目内容还没有填写。"
    ∷ line "projects.demo" "演示"
    ∷ line "projects.repo" "代码"
    ∷ line "projects.featured" "精选"
    ∷ line "projects.noCover" "暂无封面"
    ∷ line "projects.viewDetail" "查看详情 →"
    ∷ line "projects.openDetail" "查看项目详情：{title}"
    ∷ line "projects.kicker" "PROJECTS"
    ∷ line "projects.pageTitleFallback" "项目"
    ∷ line "auth.loginTitle" "登录"
    ∷ line "auth.registerTitle" "注册"
    ∷ line "auth.accountOrEmail" "账号或邮箱"
    ∷ line "auth.account" "账号"
    ∷ line "auth.accountWithHint" "账号（3-64 位）"
    ∷ line "auth.email" "邮箱"
    ∷ []
