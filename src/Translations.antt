-- ===== src/Translations.antt =====
-- frontend/src/i18n.ts: the dictionaries and the functions on them.
pub mod Lines
pub mod EnA
pub mod EnB
pub mod EnC
pub mod EnD
pub mod EnE
pub mod EnF
pub mod EnG
pub mod ZhA
pub mod ZhB
pub mod ZhC
pub mod ZhD
pub mod ZhE
pub mod ZhF
pub mod ZhG
pub mod Parity
pub mod Formats
mod Tests
use notes_of_ashen.Base.{
  ℕ, Text, codes, decimal, text_eq, [], List, ◌∷◌, ◌++◌, Option, none, some, Bool, true, false,
  ◌&&◌, ◌==◌, if◌then◌else◌,
}
use notes_of_ashen.Errors.Locale.{Language, LocalizedText, Entry, entry, find_entry, in_language}
use notes_of_ashen.Errors.Locale
use Lines.{Line, find_line, format_text}
use ZhA.{zh_a}
use ZhB.{zh_b}
use ZhC.{zh_c}
use ZhD.{zh_d}
use ZhE.{zh_e}
use ZhF.{zh_f}
use ZhG.{zh_g}
use EnA.{en_a}
use EnB.{en_b}
use EnC.{en_c}
use EnD.{en_d}
use EnE.{en_e}
use EnF.{en_f}
use EnG.{en_g}

-- dictionaries
abbrev pub dictionaries : Language → List Line
dictionaries Locale.zh = zh_a ++ zh_b ++ zh_c ++ zh_d ++ zh_e ++ zh_f ++ zh_g
dictionaries Locale.en = en_a ++ en_b ++ en_c ++ en_d ++ en_e ++ en_f ++ en_g

-- dictionaries[language][key]; undefined where there is none.
unfoldable pub translate : Language → Text → Option Text
translate l key = find_line key (dictionaries l)

abbrev is_singular : Language → ℕ → Bool
is_singular Locale.zh n = false
is_singular Locale.en n = n == 1

abbrev or_empty : Option Text → Text
or_empty none = []
or_empty (some t) = t

-- formatArticleCount; both keys are in the dictionaries.
unfoldable pub format_article_count : Language → ℕ → Text
unfolding translate
format_article_count l total =
    let key =
      if is_singular l total then codes "home.articleCountOne" else codes "home.articleCount" in
    format_text (or_empty (translate l key)) ((codes "total", decimal total) ∷ [])

abbrev pub get_date_locale : Language → Text
get_date_locale Locale.zh = codes "zh-CN"
get_date_locale Locale.en = codes "en-US"

abbrev label_or : Language → Text → Option LocalizedText → Text
label_or l name none = name
label_or l name (some t) = in_language l t

unfoldable pub get_article_status_label : Language → Text → Text
get_article_status_label l status = label_or l status (
    find_entry status (
      entry (codes "draft") "草稿" "Draft"
      ∷ entry (codes "published") "已发布" "Published"
      ∷ entry (codes "archived") "已归档" "Archived"
      ∷ []))

unfoldable pub get_user_role_label : Language → Text → Text
get_user_role_label l role = label_or l role (
    find_entry role (
      entry (codes "admin") "管理员" "Admin"
      ∷ entry (codes "editor") "编辑" "Editor"
      ∷ entry (codes "user") "用户" "User"
      ∷ []))

unfoldable pub get_user_status_label : Language → Text → Text
get_user_status_label l status = label_or l status (
    find_entry status
      (entry (codes "active") "正常" "Active" ∷ entry (codes "disabled") "已禁用" "Disabled" ∷ []))
