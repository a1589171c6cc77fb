-- ===== src/Storage/Tests.antt =====
-- A browser storage with room for two entries, and the laws of the safe storage on it.
use notes_of_ashen.Base.{
  ℕ, Text, codes, [], ◌∷◌, length, leb, Option, none, some, true, false, ◌≡◌, inl, refl, arith,
  if◌then◌else◌, text_eq, text_eq_refl, starts_with, get_elem?,
}
use notes_of_ashen.Storage.Map
use notes_of_ashen.Storage.Map.{TextMap, get-set, get-delete}
use notes_of_ashen.Storage.{done, threw, Backend, SafeStorage, get_item, set_item, remove_by_prefix}
use notes_of_ashen.Storage.Laws.{IsFaithful, get_item-set_item}
use notes_of_ashen.Storage.Prefix.{remove_by_prefix-memory}

abbrev key_at : ℕ → TextMap → Option Text
key_at i m = get_elem? (Map.keys m) i

abbrev pub small : Backend
small = record {
  State = TextMap;
  resolve = λ m. done true;
  get_item = λ k m. done (Map.get k m);
  set_item = λ k v m. if leb 2 (length m) then (threw, m) else (done tt, Map.set k v m);
  remove_item = λ k m. (done tt, Map.delete k m);
  count = λ m. done (some (length m));
  key = λ i m. done (key_at i m);
}

pub small-IsFaithful : IsFaithful small
small-IsFaithful = record {
  read_set = λ k v m h. inl (ground (arith, get-set k k v m, text_eq_refl k));
  read_set_ne = λ k j v m ne h. ground (arith, get-set k j v m);
  resolve_set = λ k v m. refl;
  read_remove = λ k m h. inl (ground (arith, get-delete k k m, text_eq_refl k));
}

abbrev pub fresh : SafeStorage small
fresh = record { memory = []; unavailable = false; store = [] }

abbrev full : SafeStorage small
full = set_item small (codes "b") (codes "2") (set_item small (codes "a") (codes "1") fresh)

-- The third write throws, and the value is read back from memory.
third_write :
    ((set_item small (codes "c") (codes "3") full).unavailable ≡ true)
    × ((get_item small (codes "c") (set_item small (codes "c") (codes "3") full)).0
        ≡ some (codes "3"))
unfolding set_item get_item Map.set Map.get text_eq
third_write = (refl, refl)

get_item-set_item_example :
    (get_item small (codes "c") (set_item small (codes "c") (codes "3") full)).0 ≡ some (codes "3")
get_item-set_item_example = get_item-set_item small small-IsFaithful full (codes "c") (codes "3")

remove_by_prefix-memory_example :
    Map.get (codes "ab") (remove_by_prefix small (codes "a") full).memory
    ≡ (if starts_with (codes "ab") (codes "a") then none else Map.get (codes "ab") full.memory)
remove_by_prefix-memory_example = remove_by_prefix-memory small full (codes "a") (codes "ab")

-- The browser's storage is swept as well.
swept : (remove_by_prefix small (codes "a") full).store ≡ (codes "b", codes "2") ∷ []
unfolding remove_by_prefix set_item Map.set Map.keys Map.delete text_eq starts_with
swept = refl
