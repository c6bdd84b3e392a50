-- ===== src/Examples/Pages.antt =====
-- The pages of five results, two on a page.
use fast_api_scaff.Prelude.{ℕ, ◌≡◌, ◌↔◌, ◌≤◌, ◌*◌, List, [], ◌∷◌, length, arith}
use fast_api_scaff.Pagination.{calculate_total_pages}
use fast_api_scaff.Pagination.Cover.{pages, pages-all, calculate_total_pages-ceiling}

abbrev results : List ℕ
results = 10 ∷ 11 ∷ 12 ∷ 13 ∷ 14 ∷ []

pages-all_example : pages results 2 (calculate_total_pages (length results) 2) 0 ≡ results
pages-all_example = pages-all results 2 (omega arith)

calculate_total_pages-ceiling_example : (calculate_total_pages 5 2 ≤ 3) ↔ (5 ≤ 3 * 2)
calculate_total_pages-ceiling_example = calculate_total_pages-ceiling 5 2 3 (omega arith)
