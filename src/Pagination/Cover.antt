-- ===== src/Pagination/Cover.antt =====
-- The pages of a list of results.
use fast_api_scaff.Prelude.{
  ℕ, zero, suc, ◌≡◌, refl, sym, ap, ◌∙◌, ◌↔◌, ◌+◌, ◌-◌, ◌*◌, ◌≤◌, List, [], ◌∷◌, ◌++◌, length,
  arith,
}
use native.Mathlib.Nat.{div-lt_iff_lt-mul}
use fast_api_scaff.Users.Repository.{take, drop}
use fast_api_scaff.Pagination.{offset, calculate_total_pages}

-- With a limit of at least 1, `calculate_total_pages` is at most `q` exactly if `q` pages hold
-- all results: it rounds up.
pub calculate_total_pages-ceiling :
    (total limit q : ℕ) → 1 ≤ limit → (calculate_total_pages total limit ≤ q) ↔ (total ≤ q * limit)
unfolding calculate_total_pages
calculate_total_pages-ceiling total limit q h =
    let (there, back) = div-lt_iff_lt-mul {k = limit} {x = total + limit - 1} {y = suc q} h in
    (
      λ p. let k = there (ground arith) in ground arith,
      λ p. let k = back (ground arith) in ground arith,
    )

module _ {A : Type 0} where
  take-drop : (limit : ℕ) (xs : List A) → take limit xs ++ drop limit xs ≡ xs
  unfolding take drop
  take-drop zero xs = refl
  take-drop (suc limit) [] = refl
  take-drop (suc limit) (x ∷ xs) = ap (λ ys. x ∷ ys) (take-drop limit xs)

  drop-empty : (k : ℕ) → drop {A = A} k [] ≡ []
  unfolding drop
  drop-empty zero = refl
  drop-empty (suc k) = refl

  drop-drop : (k limit m : ℕ) (xs : List A) → m ≡ k + limit → drop limit (drop k xs) ≡ drop m xs
  unfolding drop
  drop-drop zero limit m xs e = ap (λ n. drop n xs) (ground arith)
  drop-drop (suc k) limit m [] e = drop-empty limit ∙ sym (drop-empty m)
  drop-drop (suc k) limit zero (x ∷ xs) e = ground arith
  drop-drop (suc k) limit (suc m) (x ∷ xs) e = drop-drop k limit m xs (ground arith)

  drop-past : (k : ℕ) (xs : List A) → length xs ≤ k → drop k xs ≡ []
  unfolding drop
  drop-past zero [] h = refl
  drop-past zero (x ∷ xs) h = ground arith
  drop-past (suc k) [] h = refl
  drop-past (suc k) (x ∷ xs) h = drop-past k xs (ground arith)

  -- The `n` pages after the first `done` ones, one after the other, as `find_page` reads each of them.
  abbrev pub pages : List A → ℕ → ℕ → ℕ → List A
  pages results limit zero done = []
  pages results limit (suc n) done =
      take limit (drop (offset (record { page = suc done; limit = limit })) results)
      ++ pages results limit n (suc done)

  pages-rest :
      (results : List A) (limit n done : ℕ)
      → length results ≤ (done + n) * limit
      → pages results limit n done ≡ drop (done * limit) results
  unfolding offset
  pages-rest results limit zero done h = sym (drop-past (done * limit) results (ground arith))
  pages-rest results limit (suc n) done h =
      let front : List A = take limit (drop (done * limit) results) in
      let first : offset (record { page = suc done; limit = limit }) ≡ done * limit =
        ap (λ k. k * limit) (ground arith) in
      rw first (
        rw (pages-rest results limit n (suc done) (ground arith)) (
          ap (λ ys. front ++ ys)
            (sym (drop-drop (done * limit) limit (suc done * limit) results (ground arith)))
          ∙ take-drop limit (drop (done * limit) results)))

  -- With a limit of at least 1, all pages, one after the other, are all results: none is missing
  -- and none comes twice.
  pub pages-all :
      (results : List A) (limit : ℕ)
      → 1 ≤ limit
      → pages results limit (calculate_total_pages (length results) limit) 0 ≡ results
  unfolding drop
  pages-all results limit h =
      let n = calculate_total_pages (length results) limit in
      let enough : length results ≤ n * limit =
        (calculate_total_pages-ceiling (length results) limit n h).0 (ground arith) in
      let none_before : 0 * limit ≡ 0 = ground arith in
      pages-rest results limit n 0 (ground arith) ∙ rw none_before refl
