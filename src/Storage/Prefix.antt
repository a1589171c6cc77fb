-- ===== src/Storage/Prefix.antt =====
-- `removeByPrefix` of `createSafeStorage`, whatever the browser's storage does.
use notes_of_ashen.Base.{
  ℕ, zero, suc, ◌+◌, Text, List, [], ◌∷◌, ◌++◌, Option, none, some, Bool, true, false, ◌≡◌, arith,
  text_eq, text_eq_iff, starts_with, if◌then◌else◌, Bool-cases, inl, inr, filter, ◌||◌, ◌&&◌,
}
use notes_of_ashen.Storage.Map
use notes_of_ashen.Storage.Map.{get-delete_all, get_of_not_mem}
use notes_of_ashen.Storage.{
  Attempt, Attempt-cases, done, threw, Backend, SafeStorage, remove_by_prefix, add_key, collect,
  keys_below, sweep, sweep_counted,
}

-- The keys collected so far hold only keys with the prefix.
abbrev Prefixed : Text → List Text → Type 0
Prefixed p ks = (j : Text) → starts_with j p ≡ false → Map.mem j ks ≡ false

mem-append :
    (j k : Text) (ks : List Text) → Map.mem j (ks ++ k ∷ []) ≡ (Map.mem j ks || text_eq k j)
mem-append j k [] = ground arith
mem-append j k (i ∷ ks) = ground (arith, mem-append j k ks)

mem-add_key : (j k : Text) (ks : List Text) → Map.mem j ks ≡ true → Map.mem j (add_key k ks) ≡ true
unfolding add_key
mem-add_key j k ks h = ground (arith, mem-append j k ks)

add_key-Prefixed :
    (p k : Text) (ks : List Text)
    → starts_with k p ≡ true
    → Prefixed p ks
    → Prefixed p (add_key k ks)
unfolding add_key
add_key-Prefixed p k ks hk h j hj = ground (arith, mem-append j k ks, h j hj, text_eq_iff k j)

module _ (p : Text) where
  mem-collect :
      (j : Text) (o : Option Text) (ks : List Text)
      → Map.mem j ks ≡ true
      → Map.mem j (collect p o ks) ≡ true
  unfolding collect
  mem-collect j none ks h = h
  mem-collect j (some k) ks h = ground (arith, mem-add_key j k ks)

  collect-Prefixed :
      (o : Option Text) (ks : List Text) → Prefixed p ks → Prefixed p (collect p o ks)
  unfolding collect
  collect-Prefixed none ks h = h
  collect-Prefixed (some k) ks h = elim (Bool-cases (starts_with k p)) [
    | inl e ↦ rw e (add_key-Prefixed p k ks e h)
    | inr e ↦ rw e h
  ]

  -- Whatever `collect` keeps, the loop keeps, however it ends.
  keys_below_inv :
      (key : ℕ → Attempt (Option Text)) (P : List Text → Type 0)
      → ((o : Option Text) (ks : List Text) → P ks → P (collect p o ks))
      → (n i : ℕ) (ks : List Text) → P ks
      → P (keys_below key p n i ks).0
  unfolding keys_below
  keys_below_inv key P keep zero i ks h = h
  keys_below_inv key P keep (suc n) i ks h = elim (Attempt-cases (key i)) [
    | inl e ↦ rw (e, keys_below) h
    | inr (o, e) ↦
        rw (e, keys_below) (keys_below_inv key P keep n (i + 1) (collect p o ks) (keep o ks h))
  ]

module _ (b : Backend) where
  -- What the sweep has found when it ends, by whatever way, is what it started with and more keys
  -- with the prefix.
  sweep_counted_inv :
      (P : List Text → Type 0) (p : Text)
      → ((o : Option Text) (ks : List Text) → P ks → P (collect p o ks))
      → (ks : List Text) (st : b.State) (c : Attempt (Option ℕ)) → P ks
      → P (sweep_counted b p ks st c).0
  unfolding sweep_counted
  sweep_counted_inv P p keep ks st threw h = h
  sweep_counted_inv P p keep ks st (done none) h = h
  sweep_counted_inv P p keep ks st (done (some n)) h =
      let found = keys_below (λ i. b.key i st) p n 0 ks in
      elim (Bool-cases found.1) [
        | inl e ↦ rw e (keys_below_inv p (λ i. b.key i st) P keep n 0 ks h)
        | inr e ↦ rw e (keys_below_inv p (λ i. b.key i st) P keep n 0 ks h)
      ]

  sweep_inv :
      (P : List Text → Type 0) (p : Text)
      → ((o : Option Text) (ks : List Text) → P ks → P (collect p o ks))
      → (ks : List Text) (st : b.State) (r : Attempt Bool) → P ks
      → P (sweep b p ks st r).0
  unfolding sweep
  sweep_inv P p keep ks st (done true) h = sweep_counted_inv P p keep ks st (b.count st) h
  sweep_inv P p keep ks st (done false) h = h
  sweep_inv P p keep ks st threw h = h

mem-filter_prefix :
    (p j : Text) (ks : List Text)
    → Map.mem j (filter (λ k. starts_with k p) ks) ≡ (starts_with j p && Map.mem j ks)
mem-filter_prefix p j [] = ground arith
mem-filter_prefix p j (k ∷ ks) = ground (arith, mem-filter_prefix p j ks, text_eq_iff k j)

-- After `removeByPrefix`, whatever the browser's storage did, no key with the prefix is left in
-- memory, and every other key has the value in memory that it had.
pub remove_by_prefix-memory :
    (b : Backend) (s : SafeStorage b) (p j : Text)
    → Map.get j (remove_by_prefix b p s).memory
      ≡ (if starts_with j p then none else Map.get j s.memory)
unfolding remove_by_prefix
remove_by_prefix-memory b s p j =
    let keys = filter (λ k. starts_with k p) (Map.keys s.memory) in
    let found = (sweep b p keys s.store (b.resolve s.store)).0 in
    let complete : Map.mem j keys ≡ true → Map.mem j found ≡ true =
      sweep_inv b (λ ks. Map.mem j ks ≡ true) p (mem-collect p j) keys s.store
        (b.resolve s.store) in
    let exact : Prefixed p found =
      sweep_inv b (Prefixed p) p (collect-Prefixed p) keys s.store (b.resolve s.store)
        (λ i h. ground (arith, mem-filter_prefix p i (Map.keys s.memory))) in
    ground (
      arith,
      complete,
      exact j,
      get-delete_all found j s.memory,
      get_of_not_mem j s.memory,
      mem-filter_prefix p j (Map.keys s.memory),
    )
