-- ===== src/Translations/Tests.antt =====
-- A key with a placeholder, and two counts.
use notes_of_ashen.Base.{codes, decimal, some, true, ◌++◌, ◌==◌, text_eq, ◌≡◌, refl, if◌then◌else◌}
use notes_of_ashen.Errors.Locale.{zh, en}
use notes_of_ashen.Translations.Lines.{find_line}
use notes_of_ashen.Translations.{translate, format_article_count}
use notes_of_ashen.Translations.ZhG.{zh_g}
use notes_of_ashen.Translations.Parity.{is_same_entry, translate-parity}
use notes_of_ashen.Translations.Formats.{format_article_count-decimal}

translate-parity_example :
    is_same_entry (translate zh (codes "auth.resendIn")) (translate en (codes "auth.resendIn"))
    ≡ true
translate-parity_example = translate-parity (codes "auth.resendIn")

resend : find_line (codes "auth.resendIn") zh_g ≡ some (codes "{n}s 后重发")
unfolding find_line zh_g text_eq
resend = refl

format_article_count-decimal_example :
    (format_article_count zh 1 ≡ codes "已收录 " ++ decimal 1 ++ codes " 篇文章")
    × (format_article_count en 1
        ≡ decimal 1 ++ (if 1 == 1 then codes " article collected" else codes " articles collected"))
format_article_count-decimal_example = format_article_count-decimal 1
