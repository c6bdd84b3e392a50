-- ===== src/Worker/Policy/Bounds.antt =====
-- The delays of a policy.
use fast_api_scaff.Prelude.{
  ℕ, zero, suc, ◌≡◌, refl, ◌-◌, ◌+◌, ◌≤◌, ◌<◌, List, [], ◌∷◌, ◌++◌, length, arith, length-append,
}
use fast_api_scaff.Worker.Policy.{Floats, item, min, delay_of}

module _ (floats : Floats) where
  open floats use {Float}

  item-append :
      (d : Float) (before after : List Float) (n : ℕ) (h : n < length (before ++ d ∷ after))
      → n ≡ length before
      → item floats (before ++ d ∷ after) n h ≡ d
  unfolding item
  item-append d [] after zero h e = refl
  item-append d [] after (suc n) h e = absurd (omega (arith, e))
  item-append d (x ∷ before) after zero h e = absurd (omega (arith, e))
  item-append d (x ∷ before) after (suc n) h e = item-append d before after n _ (omega (arith, e))

  index-nth : (a b l n : ℕ) → n ≡ a + 1 → l ≡ a + suc b → min floats (n - 1) (l - 1) ≡ a
  unfolding min
  index-nth a b l n e f = ground (arith, e, f)

  index-last : (a l n : ℕ) → a + 1 ≤ n → l ≡ a + 1 → min floats (n - 1) (l - 1) ≡ a
  unfolding min
  index-last a l n h f = ground (arith, h, f)

  -- After the n-th failed try, the n-th delay, where there is one.
  pub delay_of-nth :
      (before after : List Float) (d : Float) (n : ℕ)
      → n ≡ length before + 1
      → delay_of floats (before ++ d ∷ after) n ≡ d
  unfolding delay_of
  delay_of-nth [] after d n e =
      item-append d [] after (min floats (n - 1) (length (d ∷ after) - 1)) _
        (index-nth 0 (length after) (length (d ∷ after)) n e (omega arith))
  delay_of-nth (x ∷ before) after d n e =
      item-append d (x ∷ before) after (min floats (n - 1) (length (x ∷ before ++ d ∷ after) - 1)) _
        (index-nth (suc (length before)) (length after) (length (x ∷ before ++ d ∷ after)) n e
          (omega (arith, length-append before (d ∷ after))))

  -- From the try that reaches the last delay on, the last one.
  pub delay_of-last :
      (before : List Float) (d : Float) (n : ℕ)
      → length before + 1 ≤ n
      → delay_of floats (before ++ d ∷ []) n ≡ d
  unfolding delay_of
  delay_of-last [] d n h =
      item-append d [] [] (min floats (n - 1) (length (d ∷ []) - 1)) _
        (index-last 0 (length (d ∷ [])) n h (omega arith))
  delay_of-last (x ∷ before) d n h =
      item-append d (x ∷ before) [] (min floats (n - 1) (length (x ∷ before ++ d ∷ []) - 1)) _ (
        index-last (suc (length before)) (length (x ∷ before ++ d ∷ [])) n h
          (omega (arith, length-append before (d ∷ []))))
