-- ===== src/Storage/Laws.antt =====
-- What `createSafeStorage` promises whatever the browser's storage does, failures included.
use notes_of_ashen.Base.{
  Text, none, some, false, ◌≡◌, ◌⊎◌, ◌≢◌, arith, text_eq, text_eq_iff, text_eq_refl,
}
use notes_of_ashen.Storage.Map.{get-set, get-delete}
use notes_of_ashen.Storage.{done, threw, Backend, SafeStorage, get_item, set_item, remove_item}

-- What the Web Storage standard says of a call that does not throw: a key reads what was last
-- written to it, other keys keep their values, and the object stays where it was. A read may throw.
pub record IsFaithful (b : Backend) : Type 0 where
  pub read_set :
      (k v : Text) (st : b.State)
      → (b.set_item k v st).0 ≡ done tt
      → (b.get_item k (b.set_item k v st).1 ≡ done (some v))
        ⊎ (b.get_item k (b.set_item k v st).1 ≡ threw)
  pub read_set_ne :
      (k j v : Text) (st : b.State)
      → text_eq k j ≡ false
      → (b.set_item k v st).0 ≡ done tt
      → b.get_item j (b.set_item k v st).1 ≡ b.get_item j st
  pub resolve_set : (k v : Text) (st : b.State) → b.resolve (b.set_item k v st).1 ≡ b.resolve st
  pub read_remove :
      (k : Text) (st : b.State)
      → (b.remove_item k st).0 ≡ done tt
      → (b.get_item k (b.remove_item k st).1 ≡ done none)
        ⊎ (b.get_item k (b.remove_item k st).1 ≡ threw)

module _ (b : Backend) (law : IsFaithful b) (s : SafeStorage b) where
  -- On a storage whose calls do what the standard says unless they throw, a value that was set is
  -- read back, whether the storage works, is absent, or throws at any of the calls made for the two
  -- operations.
  pub get_item-set_item : (k v : Text) → (get_item b k (set_item b k v s)).0 ≡ some v
  unfolding get_item set_item
  get_item-set_item k v =
      ground (arith, law.read_set k v s.store, get-set k k v s.memory, text_eq_refl k)

  -- On a storage whose calls do what the standard says unless they throw, a key that was removed
  -- reads as missing.
  pub get_item-remove_item : (k : Text) → (get_item b k (remove_item b k s)).0 ≡ none
  unfolding get_item remove_item
  get_item-remove_item k =
      ground (arith, law.read_remove k s.store, get-delete k k s.memory, text_eq_refl k)

  -- On a storage whose calls do what the standard says unless they throw, setting one key changes
  -- what no other key reads, as long as the write is not the storage's first failure.
  get_item-set_item_ne :
      (k j v : Text)
      → k ≢ j
      → (set_item b k v s).unavailable ≡ s.unavailable
      → (get_item b j (set_item b k v s)).0 ≡ (get_item b j s).0
  unfolding get_item set_item
  get_item-set_item_ne k j v ne same = ground (
    arith,
    text_eq_iff k j,
    law.read_set_ne k j v s.store,
    law.resolve_set k v s.store,
    get-set k j v s.memory,
  )
