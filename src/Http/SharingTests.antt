-- ===== src/Http/SharingTests.antt =====
-- Two equal writes, and an object in two orders.
use mathlib.Core.List.{Memᴰ}
use notes_of_ashen.Base.{
  suc, arith, Text, codes, lower, decimal, [], List, ◌∷◌, none, some, false, text_eq, includes,
  starts_with, ◌≡◌, refl,
}
use notes_of_ashen.Json
use notes_of_ashen.Json.{Json, Fields}
use notes_of_ashen.Errors.{method_name, is_get}
use notes_of_ashen.Http.Requests
use notes_of_ashen.Http.Requests.{Config, url_includes}
use notes_of_ashen.Http.Stringify.{Printer, stable_stringify}
use notes_of_ashen.Http.Order.{swap, stable_stringify-Shuffled}
use notes_of_ashen.Http.Writes.{
  Addressing, Writes, no_writes, adapt, find_write, is_alone, upper, dedupe_key, body_text,
}
use notes_of_ashen.Http.Shared.{here, next, sends, adapt_under_way}
use notes_of_ashen.Http.Keys.{IsSameWrite, dedupe_key-IsSameWrite}

-- A text of a list that tells lists apart: 0 ends a text.
quote : Text → Text → Text
quote [] rest = 0 ∷ rest
quote (c ∷ s) rest = suc c ∷ quote s rest

quotes : List Text → Text
unfolding quote
quotes [] = []
quotes (t ∷ ts) = quote t (quotes ts)

quote-injective : (s t r q : Text) → quote s r ≡ quote t q → (s ≡ t) × (r ≡ q)
unfolding quote
quote-injective [] [] r q h = (refl, ground (arith, h))
quote-injective [] (d ∷ t) r q h = let no : ⊥ = ground (arith, h) in elim no [ ]
quote-injective (c ∷ s) [] r q h = let no : ⊥ = ground (arith, h) in elim no [ ]
quote-injective (c ∷ s) (d ∷ t) r q h =
    let (e, k) = quote-injective s t r q (ground (arith, h)) in (ground (arith, h, e), k)

quotes-injective : (xs ys : List Text) → quotes xs ≡ quotes ys → xs ≡ ys
unfolding quotes quote
quotes-injective [] [] h = refl
quotes-injective [] ([] ∷ ys) h = let no : ⊥ = ground (arith, h) in elim no [ ]
quotes-injective [] ((c ∷ s) ∷ ys) h = let no : ⊥ = ground (arith, h) in elim no [ ]
quotes-injective ([] ∷ xs) [] h = let no : ⊥ = ground (arith, h) in elim no [ ]
quotes-injective ((c ∷ s) ∷ xs) [] h = let no : ⊥ = ground (arith, h) in elim no [ ]
quotes-injective (x ∷ xs) (y ∷ ys) h =
    let (e, k) = quote-injective x y (quotes xs) (quotes ys) h in
    let r = quotes-injective xs ys k in rw (e, r) refl

abbrev printer : Printer
printer = record { stringify_text = λ s. s; stringify_number = decimal; stringify_list = quotes }

abbrev addressing : Addressing
addressing = record { get_uri = λ c. c.url; read_value = λ t. some Json.null }

abbrev publish : Config
publish = record {
  url = some (codes "/articles/7");
  method = some (codes "put");
  is_blob = false;
  body = Requests.undefined;
  headers = some (record { authorization = some (codes "Bearer a"); visitor_id = none });
  signal = false;
  timeout = none;
  retry = false;
  network_retry = false;
}

abbrev key : Text
key = quotes (codes "PUT" ∷ codes "/articles/7" ∷ [] ∷ codes "Bearer a" ∷ [])

publish_key : dedupe_key printer addressing publish ≡ some key
unfolding dedupe_key is_alone body_text upper method_name is_get url_includes includes starts_with
    text_eq lower
publish_key = refl

-- The same with a longer time limit.
publish_later_key : dedupe_key printer addressing (record publish { timeout = some 9 }) ≡ some key
unfolding dedupe_key is_alone body_text upper method_name is_get url_includes includes starts_with
    text_eq lower
publish_later_key = refl

dedupe_key-IsSameWrite_example :
    IsSameWrite printer addressing publish (record publish { timeout = some 9 })
dedupe_key-IsSameWrite_example =
    dedupe_key-IsSameWrite printer addressing quotes-injective publish
      (record publish { timeout = some 9 }) key publish_key publish_later_key

abbrev written : Writes
written = (adapt (some (codes "k")) no_writes).1

written_under_way : Memᴰ (some (codes "k"), 0) written.under_way
unfolding adapt find_write
written_under_way = Memᴰ.head refl

adapt_under_way_example : adapt (some (codes "k")) written ≡ (0, written)
adapt_under_way_example =
    adapt_under_way written (next here (sends (some (codes "k")))) (codes "k") 0 written_under_way

abbrev one_order : Fields
one_order = Json.field (codes "b") (Json.num 1) (Json.field (codes "a") Json.null Json.end)

abbrev other_order : Fields
other_order = Json.field (codes "a") Json.null (Json.field (codes "b") (Json.num 1) Json.end)

b-ne-a : text_eq (codes "b") (codes "a") ≡ false
unfolding text_eq
b-ne-a = refl

stable_stringify-Shuffled_example :
    stable_stringify printer (Json.obj one_order) ≡ stable_stringify printer (Json.obj other_order)
stable_stringify-Shuffled_example =
    stable_stringify-Shuffled printer one_order other_order
      (swap (codes "b") (codes "a") (Json.num 1) Json.null b-ne-a)
