-- ===== src/Errors/AiMessages.antt =====
-- frontend/src/utils/aiErrorMessages.ts: the messages of the AI provider errors.
use notes_of_ashen.Base.{codes, List, [], ◌∷◌}
use notes_of_ashen.Errors.Locale.{Entry, entry}

-- In the order of the source.
unfoldable pub ai_exact_error_messages : List Entry
ai_exact_error_messages =
    entry (codes "unsupported ai api format") "暂不支持该 AI 接口格式" "This AI API format is not supported"
    ∷ entry (codes "ai model is required") "请先填写要测试的模型" "Enter a model before testing"
    ∷ entry (codes "ai response body exceeds limit") "AI 服务响应内容过大"
        "The AI provider response is too large"
    ∷ entry (codes "ai probe response is not json") "AI 服务探测响应不是有效的 JSON"
        "The AI provider probe response is not valid JSON"
    ∷ entry (codes "ai response has no choices") "AI 服务响应中没有可用结果"
        "The AI provider response contains no choices"
    ∷ entry (codes "ai response has no text content") "AI 服务响应中没有文本内容"
        "The AI provider response contains no text content"
    ∷ entry (codes "ai provider request failed") "AI 服务请求失败，请检查接口格式、地址、密钥和模型"
        "The AI provider request failed. Check the API format, URL, key, and model."
    ∷ entry (codes "ai provider request timed out") "AI 服务请求超时，请检查超时设置后重试"
        "The AI provider request timed out. Check the timeout settings and try again."
    ∷ entry (codes "ai api key needs update") "已保存的 API Key 需要重新录入"
        "The saved API key must be re-entered"
    ∷ entry (codes "api key is required") "请填写 API Key" "API key is required"
    ∷ entry (codes "api key is required for unsaved ai endpoint") "当前接口格式或地址尚未保存，请填写对应的 API Key"
        "Enter an API key for the unsaved API format or URL"
    ∷ entry (codes "api key must be replaced or cleared when ai endpoint changes")
        "修改接口格式或地址时，请同时录入新 API Key 或清空旧密钥"
        "When changing the API format or URL, replace or clear the saved API key"
    ∷ entry (codes "apiKey and clearApiKey cannot be used together") "不能同时录入并清空 API Key"
        "An API key cannot be entered and cleared at the same time"
    ∷ entry (codes "baseUrl is required when AI is enabled") "启用 AI 时必须填写 Base URL"
        "Base URL is required when AI is enabled"
    ∷ entry (codes "model is required when AI is enabled") "启用 AI 时必须填写模型"
        "A model is required when AI is enabled"
    ∷ entry (codes "apiKey is required when AI is enabled") "启用 AI 时必须配置 API Key"
        "An API key is required when AI is enabled"
    ∷ entry (codes "auth access secret is not configured") "AI 密钥加密配置缺失，请联系管理员"
        "The AI key encryption configuration is missing. Please contact the administrator."
    ∷ []
