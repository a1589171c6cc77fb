-- ===== src/Paging.antt =====
-- frontend/src/components/Pagination.tsx: `buildPageList`, the page numbers that are offered and the
-- gaps between them.
pub mod Laws
pub mod Collect
pub mod Complete
mod CollectTests
mod Tests
use notes_of_ashen.Base.{
  ℕ, zero, suc, ◌+◌, ◌-◌, min, max, List, [], ◌∷◌, ◌++◌, leb, ltb, Bool, if◌then◌else◌,
}

pub data PageItem : Type 0 where
  page : ℕ → PageItem
  gap : PageItem

-- `count` pages from `first` on
unfoldable pub pages_from : ℕ → ℕ → List PageItem
pages_from first zero = []
pages_from first (suc count) = page first ∷ pages_from (first + 1) count

abbrev pub gap_if : Bool → List PageItem
gap_if b = if b then gap ∷ [] else []

abbrev pub window : ℕ
window = 1

unfoldable pub build_page_list : ℕ → ℕ → List PageItem
unfolding pages_from
build_page_list current total =
    let start = max 2 (current - window) in
    let last = min (total - 1) (current + window) in
    if leb total 7
    then pages_from 1 total
    else page 1
      ∷ (gap_if (ltb 2 start)
          ++ (pages_from start (last + 1 - start)
              ++ (gap_if (ltb last (total - 1)) ++ page total ∷ [])))
