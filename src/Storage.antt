-- ===== src/Storage.antt =====
-- frontend/src/utils/storage.ts: `createSafeStorage`, a string map over browser storage that goes
-- on in memory when the browser storage is absent or throws.
-- The browser's `Storage` object is the parameter `Backend`: each call may throw, and its effect is
-- on a state of its own. A JS `Map` is an association list with one entry for each key.
pub mod Map
pub mod Laws
pub mod Tests
pub mod Prefix
use notes_of_ashen.Base.{
  ℕ, zero, suc, ◌+◌, Text, List, [], ◌∷◌, ◌++◌, Option, none, some, Bool, true, false, ◌||◌, filter,
  starts_with, if◌then◌else◌, ◌≡◌, ◌⊎◌, inl, inr, refl,
}
use notes_of_ashen.Storage.Map
use notes_of_ashen.Storage.Map.{TextMap}

-- The outcome of a call that may throw.
pub data Attempt {ℓ} (A : Type ℓ) : Type ℓ where
  done : A → Attempt A
  threw : Attempt A

pub Attempt-cases {ℓ} : {A : Type ℓ} (r : Attempt A) → (r ≡ threw) ⊎ ((a : A) × (r ≡ done a))
Attempt-cases (done a) = inr (a, refl)
Attempt-cases threw = inl refl

-- The `Storage` object behind `resolveStorage`, and the calls that the client makes of it.
-- `resolve` tells whether there is an object (`done false`: undefined); `count` is `none` where
-- `length` or `key` is missing.
pub record Backend : Type 1 where
  pub State : Type 0
  pub resolve : State → Attempt Bool
  pub get_item : Text → State → Attempt (Option Text)
  pub set_item : Text → Text → State → Attempt (Unit {0}) × State
  pub remove_item : Text → State → Attempt (Unit {0}) × State
  pub count : State → Attempt (Option ℕ)
  pub key : ℕ → State → Attempt (Option Text)

-- `keys.add(k)` on a JS `Set`.
add_key : Text → List Text → List Text
add_key k keys = if Map.mem k keys then keys else keys ++ k ∷ []

-- One round of the loop over the browser's keys: `key?.startsWith(prefix)`.
collect : Text → Option Text → List Text → List Text
unfolding add_key
collect prefix none keys = keys
collect prefix (some k) keys = if starts_with k prefix then add_key k keys else keys

-- `for (let index = 0; index < storage.length; index += 1)`: the keys found, and whether
-- `storage.key` threw.
keys_below : (ℕ → Attempt (Option Text)) → Text → ℕ → ℕ → List Text → List Text × Bool
unfolding collect
keys_below key prefix zero index keys = (keys, false)
keys_below key prefix (suc n) index keys = elim (key index) [
  | threw ↦ (keys, true)
  | done k ↦ keys_below key prefix n (index + 1) (collect prefix k keys)
]

module _ (b : Backend) where
  -- The variables that the methods close over, and the browser's storage.
  pub record SafeStorage : Type 0 where
    pub memory : TextMap
    pub unavailable : Bool
    pub store : b.State

  -- The body of `getItem` behind `storage.getItem(key)`, its `catch` included.
  got : Text → SafeStorage → Attempt (Option Text) → Option Text × SafeStorage
  got k s (done none) = (none, record s { memory = Map.delete k s.memory })
  got k s (done (some v)) = (some v, record s { memory = Map.set k v s.memory })
  got k s threw = (Map.get k s.memory, record s { unavailable = true })

  read_resolved : Text → SafeStorage → Attempt Bool → Option Text × SafeStorage
  read_resolved k s (done true) = got k s (b.get_item k s.store)
  read_resolved k s (done false) = (Map.get k s.memory, s)
  read_resolved k s threw = got k s threw

  unfoldable pub get_item : Text → SafeStorage → Option Text × SafeStorage
  unfolding read_resolved got
  get_item k s =
      if s.unavailable then (Map.get k s.memory, s) else read_resolved k s (b.resolve s.store)

  -- A write to the browser's storage: its new state, and whether it threw.
  wrote : SafeStorage → Attempt (Unit {0}) × b.State → SafeStorage
  wrote s (done _, store) = record s { store = store }
  wrote s (threw, store) = record s { store = store; unavailable = true }

  set_resolved : Text → Text → SafeStorage → Attempt Bool → SafeStorage
  set_resolved k v s (done true) = wrote s (b.set_item k v s.store)
  set_resolved k v s (done false) = s
  set_resolved k v s threw = record s { unavailable = true }

  unfoldable pub set_item : Text → Text → SafeStorage → SafeStorage
  unfolding set_resolved wrote
  set_item k v s =
      let kept = record s { memory = Map.set k v s.memory } in
      if s.unavailable then kept else set_resolved k v kept (b.resolve s.store)

  remove_resolved : Text → SafeStorage → Attempt Bool → SafeStorage
  remove_resolved k s (done true) = wrote s (b.remove_item k s.store)
  remove_resolved k s (done false) = s
  remove_resolved k s threw = record s { unavailable = true }

  unfoldable pub remove_item : Text → SafeStorage → SafeStorage
  unfolding remove_resolved wrote
  remove_item k s =
      let kept = record s { memory = Map.delete k s.memory } in
      if s.unavailable then kept else remove_resolved k kept (b.resolve s.store)

  -- `keys.forEach((key) => storage?.removeItem(key))`: stops at the first throw.
  remove_each : List Text → b.State → Bool × b.State
  remove_each [] st = (false, st)
  remove_each (k ∷ ks) st =
      let (r, st') = b.remove_item k st in
      elim r [ done _ ↦ remove_each ks st' | threw ↦ (true, st') ]

  -- The `try` block of `removeByPrefix` behind `resolveStorage()`: the keys that it has collected
  -- when it ends or throws, whether it threw, and the browser's storage.
  sweep_counted : Text → List Text → b.State → Attempt (Option ℕ) → List Text × Bool × b.State
  sweep_counted prefix keys st threw = (keys, true, st)
  sweep_counted prefix keys st (done none) =
      let (failed, st') = remove_each keys st in (keys, failed, st')
  sweep_counted prefix keys st (done (some n)) =
      let (found, broke) = keys_below (λ i. b.key i st) prefix n 0 keys in
      let (failed, st') = remove_each found st in
      if broke then (found, true, st) else (found, failed, st')

  sweep : Text → List Text → b.State → Attempt Bool → List Text × Bool × b.State
  unfolding sweep_counted
  sweep prefix keys st (done true) = sweep_counted prefix keys st (b.count st)
  sweep prefix keys st (done false) = (keys, false, st)
  sweep prefix keys st threw = (keys, true, st)

  unfoldable pub remove_by_prefix : Text → SafeStorage → SafeStorage
  unfolding sweep remove_each keys_below
  remove_by_prefix prefix s =
      let keys = filter (λ k. starts_with k prefix) (Map.keys s.memory) in
      let (found, failed, store) = sweep prefix keys s.store (b.resolve s.store) in
      record {
        memory = Map.delete_all found s.memory;
        unavailable = s.unavailable || failed;
        store = store;
      }
