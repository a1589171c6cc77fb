-- ===== src/Translations/ZhF.antt =====
-- frontend/src/i18n.ts: part 6 of 7 of the dictionary `zh`, in the order of the source.
use notes_of_ashen.Base.{List, [], ◌∷◌}
use notes_of_ashen.Translations.Lines.{Line, line}

unfoldable pub zh_f : List Line
zh_f =
    line "ragSettings.testRerank" "测试重排"
    ∷ line "ragSettings.testSavedHint" "连接测试仅使用已保存的配置；未保存的改动不会参与测试。"
    ∷ line "ragSettings.testing" "测试中…"
    ∷ line "ragSettings.testSuccess" "连接测试成功，耗时 {latency} ms。"
    ∷ line "ragSettings.testError" "连接测试失败"
    ∷ line "ragSettings.dimensionsMismatch" "Embedding 返回维度与当前设置不一致。"
    ∷ line "logs.user" "用户"
    ∷ line "logs.event" "事件"
    ∷ line "logs.source" "来源"
    ∷ line "logs.loadError" "日志列表加载失败"
    ∷ line "logs.subtitle" "审阅站点中的重要操作与安全事件"
    ∷ line "logs.total" "共 {total} 条记录"
    ∷ line "logs.filterEvent" "事件类型"
    ∷ line "logs.allEvents" "全部事件"
    ∷ line "logs.filterActor" "用户账号或 ID"
    ∷ line "logs.filterIp" "IP 地址"
    ∷ line "logs.startDate" "开始日期"
    ∷ line "logs.endDate" "结束日期"
    ∷ line "logs.search" "查询"
    ∷ line "logs.reset" "重置"
    ∷ line "logs.invalidDateRange" "开始日期不能晚于结束日期"
    ∷ line "logs.resource" "资源"
    ∷ line "logs.details" "详情"
    ∷ line "logs.expand" "展开详情"
    ∷ line "logs.collapse" "收起详情"
    ∷ line "logs.logId" "日志 ID"
    ∷ line "logs.userId" "用户 ID"
    ∷ line "logs.client" "客户端"
    ∷ line "logs.userAgent" "原始 User-Agent"
    ∷ line "logs.metadata" "附加信息"
    ∷ line "logs.rawMetadata" "原始附加信息"
    ∷ line "logs.noMetadata" "无附加信息"
    ∷ line "logs.noIp" "未知 IP"
    ∷ line "logs.anonymous" "匿名 / 系统"
    ∷ line "logs.unknownEvent" "未知事件"
    ∷ line "logs.unknownResource" "未知资源"
    ∷ line "logs.unknownClient" "未知客户端"
    ∷ line "logs.unknownBrowser" "未知浏览器"
    ∷ line "logs.unknownSystem" "未知系统"
    ∷ line "logs.emptyTitle" "尚无操作日志"
    ∷ line "logs.emptyDescription" "站点产生可审计操作后，记录会显示在这里。"
    ∷ line "logs.filteredEmptyTitle" "没有匹配的日志"
    ∷ line "logs.filteredEmptyDescription" "请调整筛选条件或清除筛选后重试。"
    ∷ line "logs.clearFilters" "清除筛选"
    ∷ line "logs.resource.article" "文章"
    ∷ line "logs.resource.user" "用户"
    ∷ line "logs.resource.email" "邮箱"
    ∷ line "logs.metadata.purpose" "用途"
    ∷ line "logs.metadata.status" "状态"
    ∷ line "logs.metadata.versionNo" "版本号"
    ∷ line "logs.event.articleCreated" "创建文章"
    ∷ line "logs.event.articleUpdated" "更新文章"
    ∷ line "logs.event.articleDeleted" "删除文章"
    ∷ line "logs.event.articleStatusUpdated" "更新文章状态"
    ∷ line "logs.event.articleVersionRestored" "恢复文章版本"
    ∷ line "logs.event.authVerifyCodeSent" "发送访客验证码"
    ∷ line "logs.event.userVerifyCodeSent" "发送账户验证码"
    ∷ line "logs.event.userRegistered" "注册用户"
    ∷ line "logs.event.userLoggedIn" "用户登录"
    ∷ line "logs.event.userLoggedOut" "用户退出"
    ∷ line "logs.event.userPasswordReset" "重置用户密码"
    ∷ line "logs.event.tokenMismatchLogout" "异常令牌退出"
    ∷ line "aiSettings.title" "AI 配置"
    ∷ line "aiSettings.loading" "AI 配置加载中..."
    ∷ line "aiSettings.enableTitle" "AI 辅助创作"
    ∷ line "aiSettings.enableDesc" "控制后台编辑器中的摘要、SEO 与伴写能力。"
    ∷ line "aiSettings.providerTitle" "模型服务"
    ∷ line "aiSettings.providerDesc" "设置接口格式、服务地址、模型和密钥；连接操作使用当前未保存的草稿。"
    ∷ line "aiSettings.apiFormat" "接口格式"
    ∷ line "aiSettings.openaiFormat" "OpenAI"
    ∷ line "aiSettings.openaiFormatDesc" "兼容 OpenAI Chat Completions 接口。"
    ∷ line "aiSettings.anthropicFormat" "Anthropic"
    ∷ line "aiSettings.anthropicFormatDesc" "兼容 Anthropic Messages 接口。"
    ∷ line "aiSettings.modelPlaceholder" "选择候选模型或手动输入"
    ∷ line "aiSettings.modelCandidates" "候选模型（{count}）"
    ∷ line "aiSettings.modelCandidatesLabel" "选择已获取的模型"
    ∷ line "aiSettings.apiKey" "API Key"
    ∷ line "aiSettings.apiKeyPlaceholder" "输入新的 API Key"
    ∷ line "aiSettings.apiKeyConfigured" "已保存密钥；留空表示不修改"
    ∷ line "aiSettings.configured" "当前已配置密钥"
    ∷ line "aiSettings.notConfigured" "当前未配置密钥"
    ∷ line "aiSettings.clearKey" "清空已保存密钥"
    ∷ line "aiSettings.keyNeedsUpdate" "已保存的 API Key 需要重新录入并保存，才能迁移到 v3 加密格式。"
    ∷ line "aiSettings.getModels" "获取模型"
    ∷ line "aiSettings.modelsLoading" "获取中"
    ∷ line "aiSettings.modelsLoaded" "已获取 {count} 个模型；请从候选列表选择，当前输入不会被自动替换。"
    ∷ line "aiSettings.modelsEmpty" "服务未返回可用模型，仍可手动输入模型名称。"
    ∷ line "aiSettings.modelsError" "模型列表获取失败"
    ∷ line "aiSettings.test" "测试模型"
    ∷ line "aiSettings.testing" "测试中"
    ∷ line "aiSettings.testSuccess" "模型 {model} 连接成功，耗时 {latency} ms。请确认已启用 AI 辅助创作并保存配置后再使用。"
    ∷ line "aiSettings.testError" "模型连接测试失败"
    ∷ line "aiSettings.timeoutTitle" "超时策略"
    ∷ line "aiSettings.timeoutDesc" "首字等待控制响应头/首字节等待，非流式超时控制完整请求的总等待时间。"
    ∷ line "aiSettings.firstByte" "首字等待（秒）"
    ∷ line "aiSettings.nonStream" "非流式输出（秒）"
    ∷ line "aiSettings.timeoutError" "超时必须在 1 到 1800 秒之间，且非流式超时不能小于首字等待时间。"
    ∷ line "aiSettings.save" "保存配置"
    ∷ line "aiSettings.saving" "保存中"
    ∷ line "aiSettings.saved" "AI 配置已保存。"
    ∷ line "aiSettings.loadError" "AI 配置加载失败"
    ∷ line "aiSettings.saveError" "AI 配置保存失败"
    ∷ line "toast.saveSuccess" "保存成功"
    ∷ line "toast.sessionExpired" "会话已失效，请重新登录"
    ∷ line "toast.logoutFailed" "退出请求失败，请检查网络后重试"
    ∷ line "toast.summaryFailed" "摘要生成失败"
    ∷ line "toast.requestPending" "请求处理中，请稍候…"
    ∷ line "toast.dismiss" "关闭"
    ∷ line "error.timeoutRead" "请求超时，请稍后重试"
    ∷ line "error.timeoutWrite" "网络较慢，操作可能仍在处理中，请稍后刷新页面确认，避免重复提交"
    ∷ line "error.network" "网络连接异常，请检查后重试"
    ∷ line "error.duplicateSubmit" "请勿重复提交，正在处理中…"
    ∷ line "error.fieldRequired" "{field}不能为空"
    ∷ line "error.fieldLengthInvalid" "{field}长度不符合要求"
    ∷ line "error.fieldLocalAddress" "{field}不能指向本地地址"
    ∷ line "error.fieldCountInvalid" "{field}数量不合法"
    ∷ line "error.fieldInvalid" "{field}不合法"
    ∷ line "error.operationFailedFallback" "操作失败，请稍后重试"
    ∷ line "error.boundaryTitle" "页面渲染出现问题"
    ∷ []
