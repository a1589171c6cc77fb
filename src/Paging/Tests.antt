-- ===== src/Paging/Tests.antt =====
-- Page five of ten, and three pages.
use notes_of_ashen.Base.{◌≡◌, [], ◌∷◌, refl, arith}
use notes_of_ashen.Paging.{page, gap, build_page_list}
use notes_of_ashen.Paging.Laws.{Leads, build_page_list-Leads}

fifth : build_page_list 5 10 ≡ page 1 ∷ gap ∷ page 4 ∷ page 5 ∷ page 6 ∷ gap ∷ page 10 ∷ []
unfolding build_page_list
fifth = refl

three : build_page_list 2 3 ≡ page 1 ∷ page 2 ∷ page 3 ∷ []
unfolding build_page_list
three = refl

build_page_list-Leads_example : Leads 0 (build_page_list 5 10) 10
build_page_list-Leads_example = build_page_list-Leads 5 10 (omega arith) (omega arith)
