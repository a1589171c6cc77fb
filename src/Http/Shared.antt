-- ===== src/Http/Shared.antt =====
-- A write that is under way is not sent again, and only equal writes share an answer.
use mathlib.Core.List.{Memᴰ}
use notes_of_ashen.Base.{
  ℕ, suc, Text, text_eq, text_eq_iff, text_eq_refl, [], List, ◌∷◌, filter, all, Option, none, some,
  Bool, true, false, not, ◌&&◌, ◌==◌, ltb, is_some, ◌≡◌, refl, sym, ap, subst, arith, Option-cases,
  inl, inr,
}
use notes_of_ashen.Http.Writes.{
  Writes, no_writes, find_write, drop_write, forget, adapt, settle_write,
}

pub data WritesStep (w : Writes) : Writes → Type 0 where
  sends : (key : Option Text) → WritesStep w (adapt key w).1
  ends :
      (key : Option Text) (n : ℕ) → Memᴰ (key, n) w.under_way → WritesStep w (settle_write key n w)

pub data WritesSteps (w : Writes) : Writes → Type 0 where
  here : WritesSteps w w
  next : {u v : Writes} → WritesSteps w u → WritesStep u v → WritesSteps w v

-- The requests under way that have a key.
keyed : List (Option Text × ℕ) → List (Text × ℕ)
keyed [] = []
keyed ((none, n) ∷ os) = keyed os
keyed ((some k, n) ∷ os) = (k, n) ∷ keyed os

abbrev same_key : Option Text → Option Text → Bool
same_key (some j) (some k) = text_eq j k
same_key _ _ = false

abbrev is_clear : Option Text × ℕ → Option Text × ℕ → Bool
is_clear o x = not (same_key x.0 o.0) && not (x.1 == o.1)

-- No two requests have the same promise, or the same key.
are_apart : List (Option Text × ℕ) → Bool
are_apart [] = true
are_apart (o ∷ os) = all (is_clear o) os && are_apart os

record IsValid (w : Writes) : Type 0 where
  pub tracked : w.in_flight ≡ keyed w.under_way
  pub apart : are_apart w.under_way ≡ true
  pub made : all (λ o. ltb o.1 w.next_promise) w.under_way ≡ true

clear_member :
    (o x : Option Text × ℕ) (os : List (Option Text × ℕ))
    → all (is_clear o) os ≡ true
    → Memᴰ x os
    → is_clear o x ≡ true
clear_member o x [] h m = elim m [ ]
clear_member o x (y ∷ os) h (Memᴰ.head e) = rw e (ground (arith, h))
clear_member o x (y ∷ os) h (Memᴰ.tail m) = clear_member o x os (ground (arith, h)) m

eq_refl : (n : ℕ) → (n == n) ≡ true
eq_refl n = ground arith

text_eq_sym : (s t : Text) → text_eq s t ≡ false → text_eq t s ≡ false
text_eq_sym s t h = ground (arith, text_eq_iff s t, text_eq_iff t s)

-- What is clear of a request stays when that ends.
stay_open :
    (o : Option Text × ℕ) (os : List (Option Text × ℕ))
    → all (is_clear o) os ≡ true
    → filter (λ x. not (x.1 == o.1)) os ≡ os
stay_open o [] h = refl
stay_open o (x ∷ os) h =
    let e : (x.1 == o.1) ≡ false = ground (arith, h) in
    rw e (ap (λ ys. x ∷ ys) (stay_open o os (ground (arith, h))))

stay_keyed :
    (k : Text) (n : ℕ) (os : List (Option Text × ℕ))
    → all (is_clear (some k, n)) os ≡ true
    → drop_write k (keyed os) ≡ keyed os
unfolding keyed drop_write
stay_keyed k n [] h = refl
stay_keyed k n ((none, m) ∷ os) h = stay_keyed k n os (ground (arith, h))
stay_keyed k n ((some j, m) ∷ os) h =
    let e : text_eq j k ≡ false = ground (arith, h) in
    rw e (ap (λ ys. (j, m) ∷ ys) (stay_keyed k n os (ground (arith, h))))

head_end :
    (key : Option Text) (n : ℕ) (os : List (Option Text × ℕ))
    → all (is_clear (key, n)) os ≡ true
    → forget key (keyed ((key, n) ∷ os)) ≡ keyed (filter (λ x. not (x.1 == n)) ((key, n) ∷ os))
unfolding keyed drop_write
head_end none n os h = rw (eq_refl n, stay_open (none, n) os h) refl
head_end (some k) n os h =
    rw (eq_refl n, text_eq_refl k, stay_open (some k, n) os h) (stay_keyed k n os h)

tail_end :
    (key : Option Text) (n : ℕ) (x : Option Text × ℕ) (os : List (Option Text × ℕ))
    → is_clear x (key, n) ≡ true
    → forget key (keyed os) ≡ keyed (filter (λ x. not (x.1 == n)) os)
    → forget key (keyed (x ∷ os)) ≡ keyed (filter (λ x. not (x.1 == n)) (x ∷ os))
unfolding keyed drop_write
tail_end none n (none, m) os h ih = let e : (m == n) ≡ false = ground (arith, h) in rw e ih
tail_end none n (some j, m) os h ih =
    let e : (m == n) ≡ false = ground (arith, h) in rw e (ap (λ ys. (j, m) ∷ ys) ih)
tail_end (some k) n (none, m) os h ih = let e : (m == n) ≡ false = ground (arith, h) in rw e ih
tail_end (some k) n (some j, m) os h ih =
    let e : (m == n) ≡ false = ground (arith, h) in
    let d : text_eq j k ≡ false = text_eq_sym k j (ground (arith, h)) in
    rw (e, d) (ap (λ ys. (j, m) ∷ ys) ih)

-- The map has what is under way, after any request of it ends.
tracked_end :
    (key : Option Text) (n : ℕ) (os : List (Option Text × ℕ))
    → are_apart os ≡ true
    → Memᴰ (key, n) os
    → forget key (keyed os) ≡ keyed (filter (λ x. not (x.1 == n)) os)
unfolding are_apart
tracked_end key n [] h m = elim m [ ]
tracked_end key n (o ∷ os) h (Memᴰ.head e) =
    subst (λ x. forget key (keyed (x ∷ os)) ≡ keyed (filter (λ y. not (y.1 == n)) (x ∷ os))) e
      (head_end key n os (subst (λ x. all (is_clear x) os ≡ true) (sym e) (ground (arith, h))))
tracked_end key n (o ∷ os) h (Memᴰ.tail m) =
    tail_end key n o os (clear_member o (key, n) os (ground (arith, h)) m)
      (tracked_end key n os (ground (arith, h)) m)

all-filter :
    {A : Type 0} (q p : A → Bool) (xs : List A) → all q xs ≡ true → all q (filter p xs) ≡ true
all-filter q p [] h = refl
all-filter q p (x ∷ xs) h = ground (arith, all-filter q p xs)

apart-filter :
    (p : Option Text × ℕ → Bool) (os : List (Option Text × ℕ))
    → are_apart os ≡ true
    → are_apart (filter p os) ≡ true
unfolding are_apart
apart-filter p [] h = refl
apart-filter p (o ∷ os) h = ground (arith, apart-filter p os, all-filter (is_clear o) p os)

settle_write-IsValid :
    (key : Option Text) (n : ℕ) (w : Writes)
    → Memᴰ (key, n) w.under_way
    → IsValid w
    → IsValid (settle_write key n w)
unfolding settle_write
settle_write-IsValid key n w m h = record {
  tracked =
      subst (λ ws. forget key ws ≡ keyed (filter (λ x. not (x.1 == n)) w.under_way)) (sym h.tracked)
        (tracked_end key n w.under_way h.apart m);
  apart = apart-filter _ w.under_way h.apart;
  made = all-filter _ _ w.under_way h.made;
}

-- A new promise is clear of those under way, where the map has no such key.
new_alone :
    (n : ℕ) (os : List (Option Text × ℕ))
    → all (λ o. ltb o.1 n) os ≡ true
    → all (is_clear (none, n)) os ≡ true
new_alone n [] h = refl
new_alone n ((none, m) ∷ os) h = ground (arith, new_alone n os)
new_alone n ((some j, m) ∷ os) h = ground (arith, new_alone n os)

new_clear :
    (k : Text) (n : ℕ) (os : List (Option Text × ℕ))
    → all (λ o. ltb o.1 n) os ≡ true
    → is_some (find_write k (keyed os)) ≡ false
    → all (is_clear (some k, n)) os ≡ true
unfolding keyed find_write
new_clear k n [] h f = refl
new_clear k n ((none, m) ∷ os) h f = ground (arith, new_clear k n os)
new_clear k n ((some j, m) ∷ os) h f = ground (arith, new_clear k n os)

made_later :
    (n : ℕ) (os : List (Option Text × ℕ))
    → all (λ o. ltb o.1 n) os ≡ true
    → all (λ o. ltb o.1 (suc n)) os ≡ true
made_later n [] h = refl
made_later n (o ∷ os) h = ground (arith, made_later n os)

adapt-IsValid : (key : Option Text) (w : Writes) → IsValid w → IsValid (adapt key w).1
unfolding adapt keyed are_apart
adapt-IsValid none w h = record {
  tracked = h.tracked;
  apart = ground (arith, new_alone w.next_promise w.under_way h.made, h.apart);
  made = ground (arith, made_later w.next_promise w.under_way h.made);
}
adapt-IsValid (some k) w h = elim (Option-cases (find_write k w.in_flight)) [
  | inr (m, e) ↦ rw (e, adapt) h
  | inl e ↦
      let free = subst (λ ws. is_some (find_write k ws) ≡ false) h.tracked (rw e refl) in
      rw (e, adapt)
        (record {
          tracked = ap (λ ws. (k, w.next_promise) ∷ ws) h.tracked;
          apart = ground (arith, new_clear k w.next_promise w.under_way h.made free, h.apart);
          made = ground (arith, made_later w.next_promise w.under_way h.made);
        })
]

steps-IsValid : {u v : Writes} → WritesSteps u v → IsValid u → IsValid v
steps-IsValid here h = h
steps-IsValid (next ss (sends key)) h = adapt-IsValid key _ (steps-IsValid ss h)
steps-IsValid (next ss (ends key n m)) h = settle_write-IsValid key n _ m (steps-IsValid ss h)

no_writes-IsValid : IsValid no_writes
unfolding keyed are_apart
no_writes-IsValid = record { tracked = refl; apart = refl; made = refl }

find-keyed :
    (k : Text) (n : ℕ) (os : List (Option Text × ℕ))
    → are_apart os ≡ true
    → Memᴰ (some k, n) os
    → find_write k (keyed os) ≡ some n
unfolding keyed find_write are_apart
find-keyed k n [] h m = elim m [ ]
find-keyed k n (o ∷ os) h (Memᴰ.head e) =
    subst (λ x. find_write k (keyed (x ∷ os)) ≡ some n) e (rw (text_eq_refl k) refl)
find-keyed k n ((none, m') ∷ os) h (Memᴰ.tail m) = find-keyed k n os (ground (arith, h)) m
find-keyed k n ((some j, m') ∷ os) h (Memᴰ.tail m) =
    let c = clear_member (some j, m') (some k, n) os (ground (arith, h)) m in
    let e : text_eq j k ≡ false = text_eq_sym k j (ground (arith, c)) in
    rw e (find-keyed k n os (ground (arith, h)) m)

-- While a write with a key is under way, in any history of the client, a request with that key sends
-- nothing: it gets the promise of the write that is under way, and changes nothing.
pub adapt_under_way :
    (w : Writes)
    → WritesSteps no_writes w
    → (k : Text) (n : ℕ) → Memᴰ (some k, n) w.under_way
    → adapt (some k) w ≡ (n, w)
unfolding adapt
adapt_under_way w ss k n m =
    let h = steps-IsValid ss no_writes-IsValid in
    let e : find_write k w.in_flight ≡ some n =
      subst (λ ws. find_write k ws ≡ some n) (sym h.tracked)
        (find-keyed k n w.under_way h.apart m) in
    rw (e, adapt) refl
