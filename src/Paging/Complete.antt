-- ===== src/Paging/Complete.antt =====
-- What is collected from a server that answers each page of a list.
use notes_of_ashen.Base.{
  ℕ, zero, suc, ◌+◌, ◌*◌, ◌≤◌, ◌<◌, List, [], ◌∷◌, ◌++◌, length, take, drop, length-drop,
  length-append, take-append-drop, append_assoc, append-nil, Option, none, some, Bool, true, false,
  ◌≡◌, refl, sym, ap, subst, ◌∙◌, arith, Bool-cases, inl, inr,
}
use notes_of_ashen.Auth.{Settled, resolved}
use notes_of_ashen.Paging.Collect.{
  PaginatedResp, collected, is_short, is_empty, page_size, collect, collect_paginated,
}

drop_nil : {A : Type 0} (n : ℕ) → drop {A = A} n [] ≡ []
drop_nil zero = refl
drop_nil (suc n) = refl

drop_more : {A : Type 0} (n m : ℕ) (xs : List A) → drop m (drop n xs) ≡ drop (n + m) xs
drop_more zero m xs = ap (λ k. drop k xs) (omega arith)
drop_more (suc n) m [] = drop_nil m ∙ sym (drop_nil (suc n + m))
drop_more (suc n) m (x ∷ xs) =
    let e : suc (n + m) ≡ suc n + m = omega arith in drop_more n m xs ∙ ap (λ k. drop k (x ∷ xs)) e

drop_all : {A : Type 0} (xs : List A) → length xs ≡ 0 → xs ≡ []
drop_all [] h = refl
drop_all (x ∷ xs) h = let no : ⊥ = omega (arith, h) in elim no [ ]

take_empty : {A : Type 0} (n : ℕ) (xs : List A) → is_empty (take (suc n) xs) ≡ true → xs ≡ []
take_empty n [] h = refl
take_empty n (x ∷ xs) h = let no : ⊥ = ground (arith, h) in elim no [ ]

take_found : {A : Type 0} (n : ℕ) (xs : List A) → is_empty (take (suc n) xs) ≡ false → 0 < length xs
take_found n [] h = let no : ⊥ = ground (arith, h) in elim no [ ]
take_found n (x ∷ xs) h = omega arith

ended : {A : Type 0} (items rest xs : List A) → rest ≡ [] → items ++ rest ≡ xs → items ≡ xs
ended items rest xs h e = sym (append-nil items) ∙ ap (λ r. items ++ r) (sym h) ∙ e

-- What is left is nothing once the collected items are as many as the list has.
whole :
    {A : Type 0} (items rest xs : List A)
    → items ++ rest ≡ xs
    → length xs ≤ length items
    → items ≡ xs
whole items rest xs e h =
    let n : length items + length rest ≡ length xs = sym (length-append items rest) ∙ ap length e in
    let none_left : rest ≡ [] = drop_all rest (omega (arith, n, h)) in
    ended items rest xs none_left e

page_size_positive : (size : Option ℕ) → (n : ℕ) × (page_size size ≡ suc n)
page_size_positive none = (99, refl)
page_size_positive (some zero) = (99, refl)
page_size_positive (some (suc n)) = (n, omega arith)

module _ {A S : Type 0} (load_page : ℕ → ℕ → S → Settled (PaginatedResp A) × S)
    (is_aborted : S → Bool) where
  -- Each page of the list is answered, with the length of the whole, and nothing is aborted.
  pub record Serves (xs : List A) : Type 0 where
    pub serves :
        (p size : ℕ) (s : S)
        → (load_page (suc p) size s).0
          ≡ resolved (record { items = some (take size (drop (p * size) xs)); total = length xs })
    pub lasts : (s : S) → is_aborted s ≡ false

  module _ (xs : List A) (h : Serves xs) (n : ℕ) where
    -- With the pages up to `p` collected, enough fuel collects the whole.
    collect_rest :
        (fuel p : ℕ) (items : List A) (total : Option ℕ) (s : S)
        → items ++ drop (p * suc n) xs ≡ xs
        → (is_short (length items) total ≡ false → length xs ≤ length items)
        → length (drop (p * suc n) xs) < fuel
        → (collect load_page is_aborted (suc n) fuel (suc p) items total s).0 ≡ collected xs
    unfolding collect
    collect_rest zero p items total s e t f = let no : ⊥ = omega (arith, f) in elim no [ ]
    collect_rest (suc fuel) p items total s e t f =
        elim (Bool-cases (is_short (length items) total)) [
          | inr k ↦ rw k (ap collected (whole items _ xs e (t k)))
          | inl k ↦
              let d = drop (p * suc n) xs in
              let found = take (suc n) d in
              let all_found : (items ++ found) ++ drop (suc n) d ≡ xs =
                append_assoc items found (drop (suc n) d)
                ∙ ap (λ r. items ++ r) (take-append-drop (suc n) d)
                ∙ e in
              let next_rest : drop (suc n) d ≡ drop (suc p * suc n) xs =
                drop_more (p * suc n) (suc n) xs ∙ ap (λ m. drop m xs) (omega arith) in
              elim (Bool-cases (is_empty found)) [
                | inl z ↦
                    rw (k, h.lasts s, h.serves p (suc n) s, h.lasts _, h.serves p (suc n) s, z)
                      (ap collected (
                        ended (items ++ found) (drop (suc n) d) xs
                          (ap (drop (suc n)) (take_empty n d z)) all_found))
                | inr z ↦
                    rw (k, h.lasts s, h.serves p (suc n) s, h.lasts _, h.serves p (suc n) s, z)
                      (subst
                        (λ q.
                          (collect load_page is_aborted (suc n) fuel q (items ++ found)
                            (some (length xs)) (load_page (suc p) (suc n) s).1).0
                          ≡ collected xs)
                        (omega arith)
                        (collect_rest fuel (suc p) (items ++ found) (some (length xs))
                          (load_page (suc p) (suc n) s).1
                          (ap (λ r. (items ++ found) ++ r) (sym next_rest) ∙ all_found)
                          (λ q. ground (arith, q))
                          (omega (
                            arith,
                            f,
                            take_found n d z,
                            length-drop (suc n) d,
                            ap length next_rest,
                          ))))
              ]
        ]

  -- From a server that answers each page of a list with the length of the whole, and a signal that is
  -- not aborted, the whole list is collected, in its order, whatever the size of a page; one unit of
  -- fuel more than the list is long is enough.
  pub collect_paginated-whole :
      (xs : List A) (size : Option ℕ) (fuel : ℕ) (s : S)
      → Serves xs
      → length xs < fuel
      → (collect_paginated load_page is_aborted size fuel s).0 ≡ collected xs
  unfolding collect_paginated
  collect_paginated-whole xs size fuel s h f =
      let (n, e) = page_size_positive size in
      subst (λ z. (collect load_page is_aborted z fuel 1 [] none s).0 ≡ collected xs) (sym e)
        (collect_rest xs h n fuel 0 [] none s (ap (λ k. drop k xs) (start n))
          (λ q. let no : ⊥ = ground (arith, q) in elim no [ ])
          (subst (λ k. length (drop k xs) < fuel) (sym (start n)) f))
    where
      start : (n : ℕ) → 0 * suc n ≡ 0
      start n = omega arith
