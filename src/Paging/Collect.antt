-- ===== src/Paging/Collect.antt =====
-- frontend/src/utils/pagination.ts: `collectPaginated`, which fetches the pages of a list one after
-- the other. The loop runs on fuel, one unit for each test of its condition. A loader is a function
-- on a state, from which it is read as well whether the signal is aborted.
use notes_of_ashen.Base.{
  ℕ, zero, suc, ◌+◌, max, List, [], ◌∷◌, ◌++◌, length, Option, none, some, get_or, Bool, true,
  false, ltb, if◌then◌else◌, not,
}
use notes_of_ashen.Errors.{Thrown}
use notes_of_ashen.Auth.{Settled, resolved, rejected}

-- What the function reads of frontend/src/types/index.ts: PaginatedResp.
pub record PaginatedResp {ℓ} (A : Type ℓ) : Type ℓ where
  pub items : Option (List A)
  pub total : ℕ

pub data Collected {ℓ} (A : Type ℓ) : Type ℓ where
  collected : List A → Collected A
  failed : Thrown → Collected A
  aborted : Collected A
  out_of_fuel : Collected A

-- items.length < total, where no total is infinite
abbrev pub is_short : ℕ → Option ℕ → Bool
is_short n none = true
is_short n (some total) = ltb n total

abbrev pub is_empty {ℓ} : {A : Type ℓ} → List A → Bool
is_empty [] = true
is_empty (x ∷ xs) = false

-- Math.max(1, Math.trunc(options.pageSize || 100)), of a natural number
abbrev pub page_size : Option ℕ → ℕ
page_size none = 100
page_size (some zero) = 100
page_size (some (suc n)) = max 1 (suc n)

module _ {A S : Type 0} (load_page : ℕ → ℕ → S → Settled (PaginatedResp A) × S)
    (is_aborted : S → Bool) (size : ℕ) where
  -- The loop, before its condition: `page` is the next page, and `items` are those so far.
  unfoldable pub collect : ℕ → ℕ → List A → Option ℕ → S → Collected A × S
  collect zero page items total s = (out_of_fuel, s)
  collect (suc fuel) page items total s =
      let (answer, s') = load_page page size s in
      let found : List A = elim answer [ rejected e ↦ [] | resolved r ↦ get_or r.items [] ] in
      let count : Option ℕ = elim answer [ rejected e ↦ total | resolved r ↦ some r.total ] in
      let next = collect fuel (page + 1) (items ++ found) count s' in
      if not (is_short (length items) total)
      then (collected items, s)
      else if is_aborted s
      then (aborted, s)
      else elim answer [
        | rejected e ↦ (failed e, s')
        | resolved r ↦
            if is_aborted s'
            then (aborted, s')
            else if is_empty found
            then (collected (items ++ found), s')
            else next
      ]

-- collectPaginated
unfoldable pub collect_paginated :
    {A S : Type 0}
    → (ℕ → ℕ → S → Settled (PaginatedResp A) × S)
    → (S → Bool)
    → Option ℕ
    → ℕ
    → S
    → Collected A × S
unfolding collect
collect_paginated load_page is_aborted size fuel s =
    collect load_page is_aborted (page_size size) fuel 1 [] none s
