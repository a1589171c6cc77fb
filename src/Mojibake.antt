-- ===== src/Mojibake.antt =====
-- frontend/src/utils/mojibake.ts: texts that were decoded with the wrong character set are put
-- right where that makes them look better. `decode` is the browser's fatal UTF-8 decoder.
-- The source walks characters; a character beyond 0xFFFF is no byte, and neither are the two units
-- that it is written with, so that the walk over units is the same.
pub mod Laws
pub mod Deep
pub mod Success
pub mod Tests
use notes_of_ashen.Base.{
  ℕ, zero, suc, ◌<◌, Text, text_eq, truthy, List, [], ◌∷◌, ◌++◌, codes, Option, none, some, Bool,
  true, false, not, any, leb, ◌==◌, ◌||◌, ◌&&◌, if◌then◌else◌, ltb,
}
use notes_of_ashen.Json.{
  Json, Items, Fields, str, arr, obj, nil, cons, end, inherits, field, undef, null, bool, num,
}

-- mojibakePattern, at one character
mojibake_char : ℕ → Bool
mojibake_char c =
    (leb 0x80 c && leb c 0x9f)
    || (leb 0xc0 c && leb c 0xff)
    || (c == 0x152)
    || (c == 0x153)
    || (c == 0x160)
    || (c == 0x161)
    || (c == 0x178)
    || (c == 0x17d)
    || (c == 0x17e)
    || (c == 0x192)
    || (c == 0x2c6)
    || (c == 0x2dc)
    || (leb 0x2018 c && leb c 0x201a)
    || (leb 0x201c c && leb c 0x201e)
    || (leb 0x2020 c && leb c 0x2022)
    || (c == 0x2026)
    || (c == 0x2030)
    || (c == 0x2039)
    || (c == 0x203a)
    || (c == 0x20ac)
    || (c == 0x2122)

-- mojibakePattern.test(value)
pub has_mojibake : Text → Bool
unfolding mojibake_char
has_mojibake = any mojibake_char

-- cjkPattern.test(value)
pub has_cjk : Text → Bool
has_cjk = any (λ c. leb 0x3400 c && leb c 0x9fff)

-- windows1252SpecialBytes
windows1252_special_bytes : List (ℕ × ℕ)
windows1252_special_bytes =
    (0x20ac, 0x80)
    ∷ (0x201a, 0x82)
    ∷ (0x192, 0x83)
    ∷ (0x201e, 0x84)
    ∷ (0x2026, 0x85)
    ∷ (0x2020, 0x86)
    ∷ (0x2021, 0x87)
    ∷ (0x2c6, 0x88)
    ∷ (0x2030, 0x89)
    ∷ (0x160, 0x8a)
    ∷ (0x2039, 0x8b)
    ∷ (0x152, 0x8c)
    ∷ (0x17d, 0x8e)
    ∷ (0x2018, 0x91)
    ∷ (0x2019, 0x92)
    ∷ (0x201c, 0x93)
    ∷ (0x201d, 0x94)
    ∷ (0x2022, 0x95)
    ∷ (0x2013, 0x96)
    ∷ (0x2014, 0x97)
    ∷ (0x2dc, 0x98)
    ∷ (0x2122, 0x99)
    ∷ (0x161, 0x9a)
    ∷ (0x203a, 0x9b)
    ∷ (0x153, 0x9c)
    ∷ (0x17e, 0x9e)
    ∷ (0x178, 0x9f)
    ∷ []

find_byte : ℕ → List (ℕ × ℕ) → Option ℕ
find_byte c [] = none
find_byte c ((k, v) ∷ m) = if k == c then some v else find_byte c m

-- byteFromWindows1252Char
byte_from_windows1252_char : ℕ → Option ℕ
unfolding find_byte windows1252_special_bytes
byte_from_windows1252_char c = elim (find_byte c windows1252_special_bytes) [
  | some v ↦ some v
  | none ↦ if leb c 0xff then some c else none
]

bytes_of : Text → Option (List ℕ)
bytes_of [] = some []
bytes_of (c ∷ s) =
    let rest = bytes_of s in
    elim (byte_from_windows1252_char c) [
      | none ↦ none
      | some v ↦ elim rest [ none ↦ none | some vs ↦ some (v ∷ vs) ]
    ]

-- `match` with a pattern that is not global gives one match at most.
pub mojibake_score : Text → ℕ
mojibake_score value = if has_mojibake value then 1 else 0

pub looks_better : Text → Text → Bool
looks_better decoded original =
    ltb (mojibake_score decoded) (mojibake_score original) && has_cjk decoded

abbrev pub proto_key : Text
proto_key = codes "__proto__"

-- The object with another prototype; of two, the one that is set later.
pub inheriting : Fields → Fields → Fields
inheriting ps end = inherits ps
inheriting ps (inherits fs) = inherits fs
inheriting ps (field k v fs) = field k v (inheriting ps fs)

-- next.__proto__ = v: an object becomes the prototype. A list or null becomes it too, and neither
-- has a property that is read here; other values are ignored.
abbrev pub with_prototype : Json → Fields → Fields
with_prototype (obj ps) fs = inheriting ps fs
with_prototype _ fs = fs

-- next[k] = v, where `fs` is what the entries after this one make
pub set_field : Text → Json → Fields → Fields
unfolding inheriting
set_field k v fs = if text_eq k proto_key then with_prototype v fs else field k v fs

module _ (decode : List ℕ → Option Text) where
  decode_windows1252_as_utf8 : Text → Option Text
  unfolding bytes_of byte_from_windows1252_char
  decode_windows1252_as_utf8 value = elim (bytes_of value) [
    | none ↦ none
    | some bytes ↦ decode bytes
  ]

  -- The rounds left, `current` and `best`.
  decode_rounds : ℕ → Text → Text → Text
  decode_rounds zero current best = best
  decode_rounds (suc n) current best = elim (decode_windows1252_as_utf8 current) [
    | none ↦ best
    | some decoded ↦
        let kept = if not (truthy best) || looks_better decoded best then decoded else best in
        let next = decode_rounds n decoded kept in
        if not (truthy decoded) || text_eq decoded current then best else next
  ]

  -- decodeRepeatedly; `[]` stands for null
  decode_repeatedly : Text → Text
  unfolding decode_rounds decode_windows1252_as_utf8
  decode_repeatedly value = decode_rounds 3 value []

  -- flushRun
  flush_run : Text → Text
  flush_run [] = []
  flush_run (c ∷ s) =
      let run = c ∷ s in
      let decoded : Text = if has_mojibake run then decode_repeatedly run else [] in
      if truthy decoded && looks_better decoded run then decoded else run

  byte_runs : Text → Text → Text → Text
  byte_runs result run [] = result ++ flush_run run
  byte_runs result run (c ∷ s) = elim (byte_from_windows1252_char c) [
    | none ↦ byte_runs ((result ++ flush_run run) ++ c ∷ []) [] s
    | some v ↦ byte_runs result (run ++ c ∷ []) s
  ]

  -- decodeByteRuns
  decode_byte_runs : Text → Text
  unfolding byte_runs flush_run
  decode_byte_runs value = byte_runs [] [] value

  pub fix_visible_mojibake : Text → Text
  fix_visible_mojibake value =
      let decoded = decode_repeatedly value in
      let partially_decoded = decode_byte_runs value in
      if not (has_mojibake value)
      then value
      else if truthy decoded && looks_better decoded value
      then decoded
      else if not (text_eq partially_decoded value) && looks_better partially_decoded value
      then partially_decoded
      else value

  -- fixDeep
  mutual
    unfolding set_field

    pub fix_deep : Json → Json
    fix_deep undef = undef
    fix_deep null = null
    fix_deep (bool x) = bool x
    fix_deep (num n) = num n
    fix_deep (str s) = str (fix_visible_mojibake s)
    fix_deep (arr xs) = arr (fix_items xs)
    fix_deep (obj fs) = obj (fix_fields fs)

    pub fix_items : Items → Items
    fix_items nil = nil
    fix_items (cons x xs) = cons (fix_deep x) (fix_items xs)

    pub fix_fields : Fields → Fields
    fix_fields end = end
    fix_fields (inherits fs) = end
    fix_fields (field k v fs) = set_field k (fix_deep v) (fix_fields fs)
