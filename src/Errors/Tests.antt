-- ===== src/Errors/Tests.antt =====
-- `translateMessage` and `toAppError` on concrete errors.
use mathlib.Core.List.{Memᴰ}
use notes_of_ashen.Base.{Text, codes, trim, text_eq, starts_with, none, some, ◌≡◌, refl}
use notes_of_ashen.Errors.Locale.{zh, en, Entry, entry, find_entry, in_language}
use notes_of_ashen.Errors.Fields.{field_names}
use notes_of_ashen.Errors.Messages.{own_messages}
use notes_of_ashen.Errors.AiMessages.{ai_exact_error_messages}
use notes_of_ashen.Errors.{
  Thrown, http_error, app_error, to_app_error, translate_message, fallback_text, exact_messages,
  is_inherited, inherited_names, pattern_message, patterns,
}
use notes_of_ashen.Errors.Laws.{to_app_error-to_app_error}
use notes_of_ashen.Errors.Listed.{translate_message-listed}

tables : Unit {0}
unfolding translate_message exact_messages own_messages ai_exact_error_messages field_names patterns
    pattern_message is_inherited inherited_names find_entry trim text_eq starts_with fallback_text
tables = tt

field_required_tests :
    (translate_message zh (some (codes " title is required ")) none ≡ codes "标题不能为空")
    × (translate_message en (some (codes "tags count is invalid")) none
        ≡ codes "Tags count is invalid")
    × (translate_message en (some (codes "toString")) none
        ≡ codes "Operation failed. Please try again later.")
unfolding tables
field_required_tests = (refl, refl, refl)

abbrev write_timeout : Thrown
write_timeout =
    http_error
      (record { code = some (codes "ECONNABORTED"); method = some (codes "POST"); response = none })

to_app_error-to_app_error_example :
    to_app_error en (app_error (to_app_error zh write_timeout none)) none
    ≡ to_app_error en write_timeout none
to_app_error-to_app_error_example = to_app_error-to_app_error zh en write_timeout none none

abbrev odd_message : Text
odd_message = codes " disk on fire"

odd_message_tests :
    (translate_message zh (some odd_message) none ≡ fallback_text zh none)
    × (translate_message en (some odd_message) none ≡ codes "disk on fire")
unfolding tables
odd_message_tests = (refl, refl)

abbrev first_entry : Entry
first_entry =
    entry (codes "unsupported ai api format") "暂不支持该 AI 接口格式" "This AI API format is not supported"

first_listed : Memᴰ first_entry exact_messages
unfolding tables
first_listed = Memᴰ.head refl

translate_message-listed_example :
    translate_message zh (some first_entry.key) none ≡ in_language zh first_entry.text
translate_message-listed_example = translate_message-listed first_entry first_listed zh none
