-- ===== src/Http/Stringify.antt =====
-- frontend/src/utils/http.ts: the text that tells a write from others, whatever the order of
-- its object's properties. What JSON.stringify makes of a text, a number and a list of texts, are
-- parameters.
use notes_of_ashen.Base.{
  ℕ, Text, codes, map, [], List, ◌∷◌, ◌++◌, Bool, true, false, ◌||◌, ◌&&◌, ◌==◌, ltb, if◌then◌else◌,
}
use notes_of_ashen.Json
use notes_of_ashen.Json.{Json, Items, Fields}

pub record Printer : Type 0 where
  pub stringify_text : Text → Text
  pub stringify_number : ℕ → Text
  pub stringify_list : List Text → Text

-- a < b on strings: by their units.
unfoldable pub text_ltb : Text → Text → Bool
text_ltb [] [] = false
text_ltb [] (b ∷ t) = true
text_ltb (a ∷ s) [] = false
text_ltb (a ∷ s) (b ∷ t) = ltb a b || (a == b && text_ltb s t)

-- The stable sort of the entries by their keys.
unfoldable pub insert_entry : Text × Text → List (Text × Text) → List (Text × Text)
unfolding text_ltb
insert_entry e [] = e ∷ []
insert_entry e (f ∷ fs) =
    let rest = insert_entry e fs in if text_ltb f.0 e.0 then f ∷ rest else e ∷ f ∷ fs

unfoldable pub sort_entries : List (Text × Text) → List (Text × Text)
unfolding insert_entry
sort_entries [] = []
sort_entries (e ∷ es) = insert_entry e (sort_entries es)

-- parts.join(',')
unfoldable pub join_parts : List Text → Text
join_parts [] = []
join_parts (p ∷ []) = p
join_parts (p ∷ q ∷ ps) = p ++ b',' ∷ join_parts (q ∷ ps)

-- typeof v === 'undefined'
abbrev pub is_missing : Json → Bool
is_missing Json.undef = true
is_missing _ = false

module _ (p : Printer) where
  abbrev entry_text : Text × Text → Text
  entry_text e = p.stringify_text e.0 ++ b':' ∷ e.1

  unfoldable mutual
    unfolding sort_entries join_parts

    -- JSON.stringify(undefined) ?? ''
    pub stable_stringify : Json → Text
    stable_stringify Json.undef = []
    stable_stringify Json.null = codes "null"
    stable_stringify (Json.bool b) = if b then codes "true" else codes "false"
    stable_stringify (Json.num n) = p.stringify_number n
    stable_stringify (Json.str s) = p.stringify_text s
    stable_stringify (Json.arr items) = codes "[" ++ join_parts (item_texts items) ++ codes "]"
    stable_stringify (Json.obj fields) =
        codes "{" ++ join_parts (map entry_text (sort_entries (entries fields))) ++ codes "}"

    pub item_texts : Items → List Text
    item_texts Json.nil = []
    item_texts (Json.cons v items) = stable_stringify v ∷ item_texts items

    pub entries : Fields → List (Text × Text)
    entries Json.end = []
    entries (Json.inherits fields) = []
    entries (Json.field k v fields) =
        let rest = entries fields in
        let entry : Text × Text = (k, stable_stringify v) in
        if is_missing v then rest else entry ∷ rest
