-- ===== src/Mojibake/Tests.antt =====
-- The repair of a text that was read as Windows-1252, with a decoder for texts of one character.
use notes_of_ashen.Base.{
  ℕ, ◌+◌, ◌-◌, ◌*◌, Text, codes, List, [], ◌∷◌, Option, none, some, true, false, ◌≡◌, ◌⊎◌, refl,
  leb, ◌&&◌, if◌then◌else◌, text_eq,
}
use notes_of_ashen.Json.{
  Json, Fields, obj, str, num, field, end, is_success_response, find_field, own_field,
}
use notes_of_ashen.Mojibake.{
  proto_key, has_mojibake, has_cjk, fix_visible_mojibake, fix_deep, decode_repeatedly,
  decode_byte_runs, looks_better, mojibake_score,
}
use notes_of_ashen.Mojibake.Deep.{own_content, has_plain_keys, body_plain}
use notes_of_ashen.Mojibake.Laws.{fix_visible_mojibake_clean, fix_deep_idem}
use notes_of_ashen.Mojibake.Success.{is_success_response-fix_deep, fix_deep_proto_success}

-- A decoder of one three-byte sequence.
abbrev pub three_bytes : List ℕ → Option Text
three_bytes (a ∷ b ∷ c ∷ []) =
    if leb 0xe0 a && leb a 0xef && leb 0x80 b && leb b 0xbf && leb 0x80 c && leb c 0xbf
    then some (((a - 0xe0) * 4096 + (b - 0x80) * 64 + (c - 0x80)) ∷ [])
    else none
three_bytes _ = none

-- The character 中 (e4 b8 ad), as three Windows-1252 characters.
abbrev garbled : Text
garbled = 0xe4 ∷ 0xb8 ∷ 0xad ∷ []

repaired_text : fix_visible_mojibake three_bytes garbled ≡ codes "中"
unfolding fix_visible_mojibake decode_repeatedly decode_byte_runs looks_better mojibake_score
    has_mojibake has_cjk text_eq
repaired_text = refl

fix_visible_mojibake_clean_example :
    (fix_visible_mojibake three_bytes garbled ≡ garbled)
    ⊎ ((has_mojibake (fix_visible_mojibake three_bytes garbled) ≡ false)
        × (has_cjk (fix_visible_mojibake three_bytes garbled) ≡ true))
fix_visible_mojibake_clean_example = fix_visible_mojibake_clean three_bytes garbled

abbrev fields : Fields
fields = field (codes "code") (num 0) (field (codes "message") (str garbled) end)

abbrev answer : Json
answer = obj fields

-- {"__proto__": …}
abbrev inherited : Json
inherited = obj (field proto_key (obj fields) end)

answer_plain : has_plain_keys answer ≡ true
unfolding has_plain_keys text_eq
answer_plain = refl

fix_deep_idem_example :
    let w = fix_deep three_bytes answer in
    (fix_deep three_bytes w ≡ own_content w)
    × ((has_plain_keys answer ≡ false) ⊎ (fix_deep three_bytes w ≡ w))
fix_deep_idem_example = fix_deep_idem three_bytes answer

fields-body_plain : body_plain fields ≡ true
unfolding body_plain text_eq
fields-body_plain = refl

is_success_response-fix_deep_example :
    is_success_response (fix_deep three_bytes (obj fields)) ≡ is_success_response (obj fields)
is_success_response-fix_deep_example =
    is_success_response-fix_deep three_bytes fields fields-body_plain

fields_success : is_success_response (obj fields) ≡ true
unfolding is_success_response text_eq find_field own_field
fields_success = refl

inherited_success :
    (is_success_response inherited ≡ false)
    × (is_success_response (fix_deep three_bytes inherited) ≡ true)
inherited_success = fix_deep_proto_success three_bytes fields fields-body_plain fields_success
