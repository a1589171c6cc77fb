-- ===== src/Storage/Map.antt =====
-- A JS `Map<string, string>`: `get`, `set`, `delete` and `keys` on an association list.
use notes_of_ashen.Base.{
  Text, List, [], ◌∷◌, Option, none, some, Bool, false, ◌≡◌, refl, arith, text_eq, text_eq_iff,
  if◌then◌else◌, any,
}

abbrev pub TextMap : Type 0
TextMap = List (Text × Text)

unfoldable pub get : Text → TextMap → Option Text
get k [] = none
get k ((j, v) ∷ m) = if text_eq j k then some v else get k m

-- An entry that is there keeps its place.
unfoldable pub set : Text → Text → TextMap → TextMap
set k v [] = (k, v) ∷ []
set k v ((j, w) ∷ m) = if text_eq j k then (k, v) ∷ m else (j, w) ∷ set k v m

unfoldable pub delete : Text → TextMap → TextMap
delete k [] = []
delete k ((j, w) ∷ m) = if text_eq j k then delete k m else (j, w) ∷ delete k m

unfoldable pub keys : TextMap → List Text
keys [] = []
keys ((k, v) ∷ m) = k ∷ keys m

unfoldable pub delete_all : List Text → TextMap → TextMap
unfolding delete
delete_all [] m = m
delete_all (k ∷ ks) m = delete_all ks (delete k m)

abbrev pub mem : Text → List Text → Bool
mem k = any (λ j. text_eq j k)

pub get-set :
    (k j v : Text) (m : TextMap) → get j (set k v m) ≡ (if text_eq k j then some v else get j m)
unfolding get set
get-set k j v [] = refl
get-set k j v ((i, w) ∷ m) =
    ground (arith, text_eq_iff k j, text_eq_iff i k, text_eq_iff i j, get-set k j v m)

pub get-delete :
    (k j : Text) (m : TextMap) → get j (delete k m) ≡ (if text_eq k j then none else get j m)
unfolding get delete
get-delete k j [] = ground arith
get-delete k j ((i, w) ∷ m) =
    ground (arith, text_eq_iff k j, text_eq_iff i k, text_eq_iff i j, get-delete k j m)

pub get-delete_all :
    (ks : List Text) (j : Text) (m : TextMap)
    → get j (delete_all ks m) ≡ (if mem j ks then none else get j m)
unfolding delete_all
get-delete_all [] j m = refl
get-delete_all (k ∷ ks) j m = ground (arith, get-delete_all ks j (delete k m), get-delete k j m)

pub get_of_not_mem : (j : Text) (m : TextMap) → mem j (keys m) ≡ false → get j m ≡ none
unfolding get keys
get_of_not_mem j [] h = refl
get_of_not_mem j ((k, v) ∷ m) h = ground (arith, get_of_not_mem j m)

pub ruleset map_laws = (get-set, get-delete)
