-- ===== src/Paging/CollectTests.antt =====
-- A list of five on a server with pages of two.
use notes_of_ashen.Base.{
  ℕ, suc, ◌+◌, ◌*◌, ◌-◌, ◌<◌, List, [], ◌∷◌, length, take, drop, some, false, ◌≡◌, refl, ap, arith,
}
use notes_of_ashen.Auth.{Settled, resolved}
use notes_of_ashen.Paging.Collect.{PaginatedResp, collected, collect_paginated}
use notes_of_ashen.Paging.Complete.{Serves, collect_paginated-whole}

abbrev five : List ℕ
five = 1 ∷ 2 ∷ 3 ∷ 4 ∷ 5 ∷ []

-- The state counts the requests.
abbrev serve : ℕ → ℕ → ℕ → Settled (PaginatedResp ℕ) × ℕ
serve page size s = (
  resolved (record { items = some (take size (drop ((page - 1) * size) five)); total = 5 }),
  s + 1,
)

before : (p : ℕ) → suc p - 1 ≡ p
before p = omega arith

five_served : Serves serve (λ s. false) five
five_served = record {
  serves = λ p size s.
      ap (λ k. resolved (record { items = some (take size (drop (k * size) five)); total = 5 }))
        (before p);
  lasts = λ s. refl;
}

five_short : length five < 6
five_short = omega arith

collect_paginated-whole_example :
    (collect_paginated serve (λ s. false) (some 2) 6 0).0 ≡ collected five
collect_paginated-whole_example =
    collect_paginated-whole serve (λ s. false) five (some 2) 6 0 five_served five_short
