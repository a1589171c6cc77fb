-- ===== src/Translations/ZhG.antt =====
-- frontend/src/i18n.ts: part 7 of 7 of the dictionary `zh`, in the order of the source.
use notes_of_ashen.Base.{List, [], ◌∷◌}
use notes_of_ashen.Translations.Lines.{Line, line}

unfoldable pub zh_g : List Line
zh_g =
    line "error.boundaryDesc" "可能是内容格式异常或临时故障导致，刷新页面通常可以恢复。"
    ∷ line "error.boundaryReload" "刷新页面"
    ∷ line "common.backToTop" "回到顶部"
    ∷ line "validation.required" "此项必填"
    ∷ line "validation.minLength" "至少 {n} 个字符"
    ∷ line "validation.maxLength" "最多 {n} 个字符"
    ∷ line "validation.email" "邮箱格式不正确"
    ∷ line "validation.passwordMismatch" "两次密码不一致"
    ∷ line "validation.accountPattern" "账号仅允许字母、数字与下划线"
    ∷ line "admin.media" "媒体"
    ∷ line "admin.analytics" "内容分析"
    ∷ line "admin.system" "系统工具"
    ∷ line "reading.words" "{count} 字"
    ∷ line "reading.minutes" "约 {count} 分钟"
    ∷ line "share.native" "分享"
    ∷ line "share.copy" "复制链接"
    ∷ line "share.copied" "链接已复制"
    ∷ line "share.failed" "复制链接失败"
    ∷ line "taxonomy.articleCount" "文章数"
    ∷ line "search.suggestions" "搜索建议"
    ∷ line "search.suggestionArticle" "文章"
    ∷ line "search.suggestionCategory" "分类"
    ∷ line "search.suggestionTag" "标签"
    ∷ line "search.suggestionUnknown" "其他"
    ∷ line "search.recent" "最近搜索"
    ∷ line "search.clearRecent" "清空记录"
    ∷ line "search.removeRecent" "删除记录"
    ∷ line "search.taxonomyFilters" "分类与标签"
    ∷ line "media.title" "媒体库"
    ∷ line "media.subtitle" "上传并复用文章与作品图片。"
    ∷ line "media.uploadHint" "支持 JPG/JPEG、PNG、GIF、WebP、AVIF 格式。"
    ∷ line "media.upload" "上传图片"
    ∷ line "media.uploading" "上传中…"
    ∷ line "media.search" "搜索文件名或替代文本"
    ∷ line "media.alt" "替代文本"
    ∷ line "media.copy" "复制地址"
    ∷ line "media.choose" "从媒体库选择"
    ∷ line "media.insert" "插入正文"
    ∷ line "media.useCover" "设为封面"
    ∷ line "media.empty" "暂无媒体文件"
    ∷ line "media.loadError" "媒体加载失败"
    ∷ line "media.uploadError" "媒体上传失败"
    ∷ line "media.updateError" "媒体替代文本保存失败"
    ∷ line "media.deleteError" "媒体删除失败"
    ∷ line "media.confirmDelete" "确认删除这个未被引用的媒体文件？"
    ∷ line "media.deleteCacheNotice" "删除会移除源站文件。旧版 CDN 缓存可能仍可访问，需要站点管理员清除；读者已下载的副本无法撤回。"
    ∷ line "analytics.title" "内容分析"
    ∷ line "analytics.subtitle" "查看流量、来源与文章表现。"
    ∷ line "analytics.from" "开始日期"
    ∷ line "analytics.to" "结束日期"
    ∷ line "analytics.apply" "应用"
    ∷ line "analytics.range7" "近 7 天"
    ∷ line "analytics.range30" "近 30 天"
    ∷ line "analytics.range90" "近 90 天"
    ∷ line "analytics.pv" "阅览流光（PV）"
    ∷ line "analytics.uv" "来客足迹（UV）"
    ∷ line "analytics.likes" "新增点赞"
    ∷ line "analytics.topPages" "热门页面"
    ∷ line "analytics.topArticles" "文章表现"
    ∷ line "analytics.referers" "访问来源"
    ∷ line "analytics.change" "较上一周期 {value}%"
    ∷ line "analytics.noComparison" "上一周期暂无数据"
    ∷ line "analytics.loadError" "分析数据加载失败"
    ∷ line "system.title" "系统工具"
    ∷ line "system.subtitle" "依赖健康、加密备份与整站恢复。"
    ∷ line "system.health" "依赖健康"
    ∷ line "system.refresh" "立即探测"
    ∷ line "system.checkedAt" "检查时间：{time}"
    ∷ line "system.status.up" "正常"
    ∷ line "system.status.down" "异常"
    ∷ line "system.status.disabled" "未启用"
    ∷ line "system.healthError" "健康状态加载失败"
    ∷ line "system.overallHealthy" "整体正常"
    ∷ line "system.overallDegraded" "部分依赖异常"
    ∷ line "system.disabledDetail" "此依赖未启用"
    ∷ line "backup.title" "加密备份与恢复"
    ∷ line "backup.currentPassword" "当前管理员密码"
    ∷ line "backup.passphrase" "归档密码（至少 12 个字符）"
    ∷ line "backup.currentPasswordHint" "导出和恢复均会验证当前登录管理员的密码。"
    ∷ line "backup.passphraseLength" "已输入 {count} 个字符；归档密码需为 {min}–{max} 个字符。"
    ∷ line "backup.passphraseTooShort" "归档密码至少需要 {min} 个字符。"
    ∷ line "backup.passphraseTooLong" "归档密码最多只能包含 {max} 个字符。"
    ∷ line "backup.fileInvalid" "请选择 .noa-backup 备份文件。"
    ∷ line "backup.fileSelected" "已选择：{name}"
    ∷ line "backup.noFileSelected" "尚未选择备份文件。"
    ∷ line "backup.chooseFile" "选择备份文件"
    ∷ line "backup.replaceFile" "更换备份文件"
    ∷ line "backup.removeFile" "移除文件"
    ∷ line "backup.export" "导出加密备份"
    ∷ line "backup.exporting" "正在导出…"
    ∷ line "backup.exportCardTitle" "导出加密备份"
    ∷ line "backup.exportCardDescription" "生成可用于整站恢复的加密 .noa-backup 文件。"
    ∷ line "backup.restore" "整站替换恢复"
    ∷ line "backup.restoring" "正在恢复…"
    ∷ line "backup.restoreCardTitle" "整站替换恢复"
    ∷ line "backup.restoreCardDescription" "此操作不可撤销，请确认备份文件和覆盖确认词。"
    ∷ line "backup.file" "选择 .noa-backup 文件"
    ∷ line "backup.warning" "恢复会覆盖用户、内容、配置与媒体，并清空会话、日志、流量和 AI 密钥。"
    ∷ line "backup.warningReplace" "目标站用户、内容、配置与媒体将被整站替换。"
    ∷ line "backup.warningStats" "目标站日志、流量和访客去重明细将被清空。"
    ∷ line "backup.warningAI" "AI 将被关闭，原 API Key 不会恢复。"
    ∷ line "backup.warningLogout" "恢复成功后所有会话失效，必须重新登录。"
    ∷ line "backup.confirm" "确认执行整站替换恢复？完成后需要重新登录。"
    ∷ line "backup.confirmation" "输入 REPLACE 确认覆盖整站"
    ∷ line "backup.confirmationHint" "确认词区分大小写，必须完全匹配 REPLACE。"
    ∷ line "backup.confirmationError" "请输入 REPLACE 确认整站替换"
    ∷ line "backup.blocker.busy" "正在处理备份任务，请稍候。"
    ∷ line "backup.blocker.currentPasswordMissing" "请先输入当前管理员密码。"
    ∷ line "backup.blocker.passphraseMissing" "请先输入归档密码。"
    ∷ line "backup.blocker.passphraseTooShort" "归档密码至少需要 {min} 个字符。"
    ∷ line "backup.blocker.passphraseTooLong" "归档密码最多只能包含 {max} 个字符。"
    ∷ line "backup.blocker.fileMissing" "请先选择 .noa-backup 备份文件。"
    ∷ line "backup.blocker.confirmationMissing" "请输入 REPLACE 确认整站替换。"
    ∷ line "backup.blocker.confirmationMismatch" "确认词必须完全匹配 REPLACE。"
    ∷ line "backup.exportError" "备份导出失败"
    ∷ line "backup.restoreError" "备份恢复失败"
    ∷ line "backup.restoreSuccess" "恢复完成，即将退出登录。"
    ∷ line "auth.resendIn" "{n}s 后重发"
    ∷ []
