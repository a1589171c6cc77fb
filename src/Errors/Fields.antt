-- ===== src/Errors/Fields.antt =====
-- frontend/src/utils/error.ts: `fieldNames`, the localised names of request fields.
use notes_of_ashen.Base.{codes, List, [], ◌∷◌}
use notes_of_ashen.Errors.Locale.{Entry, entry}

-- In the order of the source.
unfoldable pub field_names : List Entry
field_names =
    entry (codes "account") "账号" "Account"
    ∷ entry (codes "password") "密码" "Password"
    ∷ entry (codes "email") "邮箱" "Email"
    ∷ entry (codes "nickname") "昵称" "Nickname"
    ∷ entry (codes "avatarUrl") "头像 URL" "Avatar URL"
    ∷ entry (codes "oldPassword") "旧密码" "Old password"
    ∷ entry (codes "newPassword") "新密码" "New password"
    ∷ entry (codes "refreshToken") "登录凭证" "Refresh token"
    ∷ entry (codes "title") "标题" "Title"
    ∷ entry (codes "slug") "路径" "Slug"
    ∷ entry (codes "content") "正文" "Content"
    ∷ entry (codes "coverUrl") "封面 URL" "Cover URL"
    ∷ entry (codes "apiFormat") "接口格式" "API format"
    ∷ entry (codes "baseUrl") "Base URL" "Base URL"
    ∷ entry (codes "model") "模型" "Model"
    ∷ entry (codes "apiKey") "API Key" "API key"
    ∷ entry (codes "firstByteTimeoutSeconds") "首字等待时间" "First byte timeout"
    ∷ entry (codes "nonStreamTimeoutSeconds") "非流式输出超时" "Non-streaming timeout"
    ∷ entry (codes "status") "状态" "Status"
    ∷ entry (codes "q") "搜索关键词" "Search keyword"
    ∷ entry (codes "repoUrl") "仓库 URL" "Repo URL"
    ∷ entry (codes "demoUrl") "演示 URL" "Demo URL"
    ∷ entry (codes "referrer") "来源" "Referrer"
    ∷ entry (codes "versionNo") "版本号" "Version number"
    ∷ entry (codes "code") "验证码" "Code"
    ∷ entry (codes "role") "角色" "Role"
    ∷ entry (codes "purpose") "验证用途" "Purpose"
    ∷ entry (codes "action") "操作" "Action"
    ∷ entry (codes "displayPriority") "显示优先级" "Display priority"
    ∷ entry (codes "homeArticleLayout") "首页布局" "Home article layout"
    ∷ entry (codes "path") "路径" "Path"
    ∷ entry (codes "routeType") "路由类型" "Route type"
    ∷ entry (codes "markdownFile") "Markdown 文件" "Markdown file"
    ∷ entry (codes "items") "项目" "Items"
    ∷ entry (codes "experiences") "工作经历" "Experiences"
    ∷ entry (codes "educations") "教育经历" "Educations"
    ∷ entry (codes "skills") "技能" "Skills"
    ∷ entry (codes "highlights") "亮点" "Highlights"
    ∷ entry (codes "tags") "标签" "Tags"
    ∷ entry (codes "name") "名称" "Name"
    ∷ entry (codes "level") "等级" "Level"
    ∷ entry (codes "siteTitle") "站点标题" "Site title"
    ∷ entry (codes "siteDescription") "站点描述" "Site description"
    ∷ entry (codes "siteKeywords") "站点关键词" "Site keywords"
    ∷ entry (codes "siteBaseUrl") "站点基础 URL" "Site base URL"
    ∷ entry (codes "subtitle") "副标题" "Subtitle"
    ∷ entry (codes "contentMarkdown") "正文 Markdown" "Content markdown"
    ∷ entry (codes "organization") "组织/公司" "Organization"
    ∷ entry (codes "location") "地点" "Location"
    ∷ entry (codes "startDate") "开始日期" "Start date"
    ∷ entry (codes "endDate") "结束日期" "End date"
    ∷ entry (codes "description") "描述" "Description"
    ∷ entry (codes "school") "学校" "School"
    ∷ entry (codes "degree") "学位" "Degree"
    ∷ entry (codes "major") "专业" "Major"
    ∷ entry (codes "category") "分类" "Category"
    ∷ entry (codes "id") "ID" "ID"
    ∷ entry (codes "summary") "摘要" "Summary"
    ∷ entry (codes "period") "时期" "Period"
    ∷ []
