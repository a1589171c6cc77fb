-- ===== src/Errors/Messages.antt =====
-- frontend/src/utils/error.ts: the entries of `exactMessages` behind `...AI_EXACT_ERROR_MESSAGES`.
use notes_of_ashen.Base.{codes, List, [], ◌∷◌}
use notes_of_ashen.Errors.Locale.{
  Entry, entry, session_expired, operation_failed, timeout, timeout_write, request_body_too_large,
  network, duplicate_submit,
}

-- In the order of the source.
unfoldable pub own_messages : List Entry
own_messages =
    entry (codes "avatarUrl format is invalid") "头像 URL 必须以 http:// 或 https:// 开头"
      "Avatar URL must start with http:// or https://"
    ∷ entry (codes "coverUrl format is invalid") "封面 URL 必须以 http:// 或 https:// 开头，或留空"
        "Cover URL must start with http:// or https://, or be empty"
    ∷ entry (codes "email format is invalid") "邮箱格式不正确" "Email format is invalid"
    ∷ entry (codes "account or email already exists") "账号或邮箱已存在" "Account or email already exists"
    ∷ entry (codes "email already exists") "邮箱已存在" "Email already exists"
    ∷ entry (codes "account or password is incorrect") "账号或密码不正确" "Account or password is incorrect"
    ∷ entry (codes "user is disabled") "账号已被禁用" "This account has been disabled"
    ∷ entry (codes "old password is incorrect") "旧密码不正确" "Old password is incorrect"
    ∷ entry (codes "registration is disabled") "注册已关闭，请联系管理员。"
        "Registration is disabled. Please contact the administrator."
    ∷ entry (codes "refresh token is invalid") "登录状态无效，请重新登录"
        "Your session is invalid. Please sign in again."
    ∷ entry (codes "refresh token is expired") "登录已过期，请重新登录"
        "Your session has expired. Please sign in again."
    ∷ entry (codes "captcha is required") "请填写图形验证码" "Please enter the captcha"
    ∷ entry (codes "captcha is expired") "图形验证码已过期，请重新获取"
        "The captcha has expired. Please refresh it."
    ∷ entry (codes "captcha is incorrect") "图形验证码不正确" "The captcha is incorrect"
    ∷ entry (codes "email code is required") "请填写邮箱验证码" "Please enter the email verification code"
    ∷ entry (codes "email code is invalid or expired") "邮箱验证码无效或已过期，请重新获取"
        "The email verification code is invalid or expired. Please request a new one."
    ∷ entry (codes "email code is expired") "邮箱验证码已过期，请重新获取"
        "The email verification code has expired. Please request a new one."
    ∷ entry (codes "email code is incorrect") "邮箱验证码不正确" "The email verification code is incorrect"
    ∷ entry (codes "verify code was sent recently") "验证码发送过于频繁，请稍后再试"
        "A verification code was sent recently. Please try again later."
    ∷ entry (codes "purpose is invalid") "验证用途不正确，请刷新后重试"
        "The verification purpose is invalid. Please refresh and try again."
    ∷ entry (codes "too many requests") "请求过于频繁，请稍后再试" "Too many requests. Please try again later."
    ∷ entry (codes "missing authorization header") "请先登录" "Please sign in first"
    ∷ entry (codes "invalid authorization header") "登录凭证格式不正确" "The authorization header is invalid"
    ∷ entry (codes "invalid or expired token") "登录已过期，请重新登录"
        "Your session has expired. Please sign in again."
    ∷ entry (codes "resource not found") "资源不存在或已被删除"
        "The resource does not exist or has been removed"
    ∷ entry (codes "resource already exists") "资源已存在" "The resource already exists"
    ∷ entry (codes "article slug already exists") "文章路径已存在" "The article slug already exists"
    ∷ entry (codes "category already exists") "分类名称或路径已存在"
        "The category name or slug already exists"
    ∷ entry (codes "tag already exists") "标签名称或路径已存在" "The tag name or slug already exists"
    ∷ entry (codes "tag not found") "标签不存在" "Tag not found"
    ∷ entry (codes "media asset is still referenced") "图片仍被文章、历史版本、作品或头像引用，移除引用后再删除"
        "This media asset is still referenced by an article, version, project, or avatar. Remove the reference before deleting it."
    ∷ entry (codes "media file is required") "请选择要上传的图片文件" "Choose an image file to upload"
    ∷ entry (codes "media upload is invalid or too large") "图片上传请求无效或文件超过允许大小，请压缩后重试"
        "The image upload is invalid or exceeds the allowed size. Compress it and try again."
    ∷ entry (codes "media file size is invalid") "图片为空或超过允许大小，请压缩后重试"
        "The image is empty or exceeds the allowed size. Compress it and try again."
    ∷ entry (codes "media type is not supported") "不支持该图片格式。请选择 JPG/JPEG、PNG、GIF、WebP 或 AVIF 文件"
        "This image format is not supported. Choose a JPG/JPEG, PNG, GIF, WebP, or AVIF file."
    ∷ entry (codes "media extension does not match its content") "文件扩展名与实际图片内容不匹配，请重新导出后上传"
        "The file extension does not match the image content. Re-export the image and try again."
    ∷ entry (codes "media content is invalid") "图片文件已损坏或无法读取，请重新导出后上传"
        "The image file is corrupted or cannot be read. Re-export the image and try again."
    ∷ entry (codes "ai assistant is disabled") "AI 辅助未启用，请先在后台 AI 配置中启用。"
        "AI assistance is disabled. Enable it in AI Settings first."
    ∷ entry (codes "ai assistant is not configured") "AI 辅助尚未配置，请检查 Base URL、API Key 和模型。"
        "AI assistance is not configured. Check Base URL, API key, and model."
    ∷ entry (codes "ai response is invalid") "AI 返回内容格式不正确，请重试。"
        "The AI response format is invalid. Please try again."
    ∷ entry (codes "baseUrl format is invalid") "Base URL 必须以 http:// 或 https:// 开头，或留空"
        "Base URL must start with http:// or https://, or be empty"
    ∷ entry (codes "firstByteTimeoutSeconds is invalid") "首字等待时间必须在 1 到 1800 秒之间"
        "First byte timeout must be between 1 and 1800 seconds"
    ∷ entry (codes "nonStreamTimeoutSeconds is invalid") "非流式输出超时必须在 1 到 1800 秒之间"
        "Non-streaming timeout must be between 1 and 1800 seconds"
    ∷ entry
        (codes "nonStreamTimeoutSeconds must be greater than or equal to firstByteTimeoutSeconds")
        "非流式输出超时不能小于首字等待时间" "Non-streaming timeout cannot be lower than first byte timeout"
    ∷ entry (codes "nonStreamTimeoutSeconds must not exceed the server request timeout")
        "非流式超时不能超过服务端请求超时上限" "Non-streaming timeout cannot exceed the server request timeout"
    ∷ entry (codes "cannot manage other user's article") "不能管理其他用户的文章"
        "You cannot manage another user's article"
    ∷ entry (codes "content manager permission required") "需要编辑或管理员权限"
        "Editor or administrator permission is required"
    ∷ entry (codes "admin permission required") "需要管理员权限" "Administrator permission is required"
    ∷ entry (codes "cannot disable yourself") "不能禁用自己的账号" "You cannot disable your own account"
    ∷ entry (codes "cannot downgrade yourself") "不能降低自己的管理员权限"
        "You cannot downgrade your own administrator role"
    ∷ entry (codes "at least one active admin is required") "至少需要保留一个可用管理员"
        "At least one active administrator is required"
    ∷ entry (codes "current password is incorrect") "当前管理员密码不正确"
        "The current administrator password is incorrect"
    ∷ entry (codes "database schema migration is required") "数据库结构未升级，请执行媒体与内容分析迁移后重试。"
        "The database schema is not up to date. Apply the media and content analytics migration, then try again."
    ∷ entry (codes "backup passphrase length is invalid") "归档密码长度必须在 12 到 128 个字符之间"
        "The archive passphrase must contain 12 to 128 characters"
    ∷ entry (codes "backup passphrase is invalid") "归档密码无效" "The archive passphrase is invalid"
    ∷ entry (codes "backup passphrase or file is invalid") "归档密码错误或备份文件无效"
        "The archive passphrase is incorrect or the backup file is invalid"
    ∷ entry (codes "backup file is required") "请选择备份文件" "Choose a backup file"
    ∷ entry (codes "backup upload is invalid") "备份上传无效" "The backup upload is invalid"
    ∷ entry (codes "backup exceeds configured size limit") "备份超过允许的大小限制"
        "The backup exceeds the configured size limit"
    ∷ entry (codes "backup expanded size exceeds limit") "备份解压后的内容超过允许的大小限制"
        "The expanded backup content exceeds the configured size limit"
    ∷ entry (codes "backup archive is invalid") "备份归档无效" "The backup archive is invalid"
    ∷ entry (codes "backup has too many files") "备份包含的文件数量超过允许上限"
        "The backup contains too many files"
    ∷ entry (codes "backup manifest exceeds size limit") "备份清单超过允许的大小限制"
        "The backup manifest exceeds the configured size limit"
    ∷ entry (codes "restore confirmation is invalid") "整站替换确认无效"
        "The restore confirmation is invalid"
    ∷ entry (codes "another restore is running") "已有整站恢复正在执行"
        "Another full-site restore is already running"
    ∷ entry (codes "restore lock is unavailable") "恢复锁暂时不可用，请稍后重试"
        "The restore lock is unavailable. Try again later"
    ∷ entry (codes "email is unchanged") "新邮箱不能与当前邮箱相同"
        "The new email cannot be the same as the current email"
    ∷ entry (codes "internal server error") "服务暂时不可用，请稍后重试"
        "The service is temporarily unavailable. Please try again later."
    ∷ entry (codes "invalid id") "ID 不合法" "The ID is invalid"
    ∷ entry (codes "invalid request body or parameters") "请求参数不合法"
        "The request body or parameters are invalid"
    ∷ entry (codes "invalid user") "用户信息无效，请重新登录" "The user info is invalid. Please sign in again."
    ∷ entry (codes "missing user") "用户信息缺失，请重新登录" "User info is missing. Please sign in again."
    ∷ entry (codes "article not found") "文章不存在或已被删除"
        "The article does not exist or has been removed"
    ∷ entry (codes "refresh token is required") "登录状态异常，请重新登录"
        "Your session is invalid. Please sign in again."
    ∷ entry (codes "markdown file is invalid") "Markdown 文件不合法" "The Markdown file is invalid"
    ∷ entry (codes "markdown file is required") "请选择 Markdown 文件" "A Markdown file is required"
    ∷ entry (codes "markdown file must be .md") "文件必须是 .md 后缀" "The file must have a .md extension"
    ∷ entry (codes "markdown file is too large") "Markdown 文件过大" "The Markdown file is too large"
    ∷ entry (codes "markdown content is empty after title extraction") "正文为空（标题提取后无内容）"
        "The Markdown content is empty after title extraction"
    ∷ entry (codes "markdown content is empty") "正文内容为空" "The Markdown content is empty"
    ∷ entry (codes "front matter is invalid") "Front Matter 格式不正确" "The front matter is invalid"
    ∷ entry (codes "feature disabled") "该功能未开启" "This feature is disabled"
    ∷ entry (codes "email service is disabled") "邮件服务未开启" "The email service is disabled"
    ∷ entry (codes "email service is not configured") "邮件服务未配置"
        "The email service is not configured"
    ∷ entry (codes "rate limiter unavailable") "限流服务暂时不可用，请稍后重试"
        "The rate limiter is unavailable. Please try again later."
    ∷ entry (codes "too many likes for this article") "点赞过于频繁，请稍后再试"
        "Too many likes for this article. Please try again later."
    ∷ entry (codes "items id is duplicated") "项目 ID 不能重复" "Item IDs must not be duplicated"
    ∷ entry (codes "role is invalid") "角色不合法" "The role is invalid"
    ∷ entry (codes "action is invalid") "操作类型不合法" "The action is invalid"
    ∷ entry (codes "displayPriority is invalid") "显示优先级不合法" "The display priority is invalid"
    ∷ entry (codes "homeArticleLayout is invalid") "首页布局不合法" "The home article layout is invalid"
    ∷ entry (codes "versionNo is invalid") "版本号不合法" "The version number is invalid"
    ∷ entry (codes "referrer length is invalid") "来源长度不符合要求" "The referrer length is invalid"
    ∷ entry (codes "code length is invalid") "验证码长度不符合要求" "The code length is invalid"
    ∷ entry (codes "success") "操作成功" "Success"
    ∷ entry (session_expired) "登录已过期，请重新登录" "Your session has expired. Please sign in again."
    ∷ entry (operation_failed) "操作失败，请稍后重试" "Operation failed. Please try again later."
    ∷ entry (timeout) "请求超时，请稍后重试" "The request timed out. Please try again later."
    ∷ entry (timeout_write) "网络较慢，操作可能仍在处理中，请稍后刷新页面确认，避免重复提交"
        "The network is slow. Your request may still be processing — please refresh the page later to verify, to avoid duplicate submissions."
    ∷ entry (request_body_too_large) "上传文件过大，请压缩后重试"
        "The uploaded file is too large. Compress it and try again."
    ∷ entry (network) "网络连接异常，请检查后重试"
        "Network connection failed. Please check your connection and try again."
    ∷ entry (duplicate_submit) "请勿重复提交，正在处理中…"
        "Please do not submit again — your request is still being processed."
    ∷ []
