-- ===== src/Paging/Laws.antt =====
-- The page numbers go through all pages, a gap standing for the pages between two of them.
use notes_of_ashen.Base.{
  ℕ, zero, suc, ◌+◌, ◌-◌, ◌≤◌, ◌<◌, min, max, List, [], ◌∷◌, ◌++◌, leb, ltb, ◌≡◌, refl, arith,
  append-nil, subst, Bool-cases, inl, inr,
}
use notes_of_ashen.Paging.{PageItem, page, gap, gap_if, pages_from, build_page_list, window}

-- Behind page `n` the items lead to page `total`: each page is the next one, or comes behind a gap
-- that hides one page at least.
pub Leads : ℕ → List PageItem → ℕ → Type 0
Leads n [] total = n ≡ total
Leads n (page k ∷ items) total = (k ≡ n + 1) × Leads k items total
Leads n (gap ∷ page k ∷ items) total = (n + 1 < k) × Leads k items total
Leads n (gap ∷ _) total = ⊥

pages-Leads :
    (n count total : ℕ) (items : List PageItem)
    → Leads (n + count) items total
    → Leads n (pages_from (n + 1) count ++ items) total
unfolding Leads pages_from
pages-Leads n zero total items h = subst (λ k. Leads k items total) (omega arith) h
pages-Leads n (suc count) total items h =
    (refl, pages-Leads (n + 1) count total items (subst (λ k. Leads k items total) (omega arith) h))

end-Leads :
    (last total : ℕ)
    → last + 1 ≤ total
    → Leads last (gap_if (ltb last (total - 1)) ++ page total ∷ []) total
unfolding Leads
end-Leads last total h = elim (Bool-cases (ltb last (total - 1))) [
  | inl e ↦ rw e (ground arith, refl)
  | inr e ↦ rw e (ground arith, refl)
]

middle-Leads :
    (start count total : ℕ) (items : List PageItem)
    → 2 ≤ start
    → Leads (start + count) items total
    → Leads 1 (gap_if (ltb 2 start) ++ (pages_from start (suc count) ++ items)) total
unfolding Leads pages_from
middle-Leads start count total items h k = elim (Bool-cases (ltb 2 start)) [
  | inl e ↦ rw e (ground arith, pages-Leads start count total items k)
  | inr e ↦ rw e (ground arith, pages-Leads start count total items k)
]

-- For a current page that exists, the items lead from page 1 to the last page: no page stands twice
-- or out of order, none is left out without a gap, and no gap stands where nothing is left out.
pub build_page_list-Leads :
    (current total : ℕ)
    → 1 ≤ current
    → current ≤ total
    → Leads 0 (build_page_list current total) total
unfolding build_page_list Leads
build_page_list-Leads current total h k = elim (Bool-cases (leb total 7)) [
  | inl e ↦ rw e (
      subst (λ l. Leads 0 l total) (append-nil (pages_from 1 total))
        (pages-Leads 0 total total [] (omega arith)))
  | inr e ↦
      let start = max 2 (current - window) in
      let last = min (total - 1) (current + window) in
      let items = gap_if (ltb last (total - 1)) ++ page total ∷ [] in
      let many : 7 < total = ground arith in
      let same : suc (last - start) ≡ last + 1 - start = omega arith in
      let reached : last ≡ start + (last - start) = omega arith in
      rw e (
        refl,
        subst (λ n. Leads 1 (gap_if (ltb 2 start) ++ (pages_from start n ++ items)) total) same
            (middle-Leads start (last - start) total items (omega arith)
              (subst (λ n. Leads n items total) reached (end-Leads last total (omega arith)))),
      )
]
