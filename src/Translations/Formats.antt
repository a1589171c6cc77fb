-- ===== src/Translations/Formats.antt =====
-- The counts of articles that are shown.
use notes_of_ashen.Base.{
  ℕ, codes, decimal, ◌++◌, ◌==◌, text_eq, starts_with, ◌≡◌, refl, if◌then◌else◌, Bool, true, false,
  Text, [], ◌∷◌,
}
use notes_of_ashen.Errors.Locale.{zh, en}
use notes_of_ashen.Translations.Lines.{find_line, format_text, replace_key, replace_from}
use notes_of_ashen.Translations.{translate, or_empty, format_article_count}
use notes_of_ashen.Translations.ZhA.{zh_a}
use notes_of_ashen.Translations.EnA.{en_a}

english :
    (one : Bool) (value : Text)
    → let key = if one then codes "home.articleCountOne" else codes "home.articleCount" in
      format_text (or_empty (translate en key)) ((codes "total", value) ∷ [])
      ≡ value ++ (if one then codes " article collected" else codes " articles collected")
unfolding translate find_line en_a text_eq format_text replace_key replace_from starts_with
english true value = refl
english false value = refl

-- The count stands in the text of either language, and English tells one article from several.
pub format_article_count-decimal :
    (n : ℕ)
    → (format_article_count zh n ≡ codes "已收录 " ++ decimal n ++ codes " 篇文章")
      × (format_article_count en n
          ≡ decimal n
            ++ (if n == 1 then codes " article collected" else codes " articles collected"))
unfolding format_article_count translate find_line zh_a en_a text_eq format_text replace_key
    replace_from starts_with
format_article_count-decimal n = (refl, english (n == 1) (decimal n))
