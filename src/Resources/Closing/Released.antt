-- ===== src/Resources/Closing/Released.antt =====
-- What is left of a group of resources after its closing.
use fast_api_scaff.Prelude.{
  ◌≡◌, refl, ap, sym, length-reverse, ◌∙◌, true, Option, none, some, List, [], ◌∷◌, ◌++◌, map,
  reverse, length, arith, inl, inr, Option-cases, all, all-reverse,
}
use mathlib.Core.List.{reverse-cons}
use fast_api_scaff.Resources.Lazy.{AsyncLazy, begin_close, call_aclose, enter_aclose, leave_closer}
use fast_api_scaff.Resources.Closing.{
  after_closer, go_on, aclose, collect, close_each, close_lazy_resources,
}

module _ {T : Type 0} where
  abbrev held : Option T → List T
  held none = []
  held (some v) = v ∷ []

  -- The values that the resources hold.
  abbrev pub values : List (AsyncLazy T) → List T
  values [] = []
  values (lazy ∷ resources) = held lazy.value ++ values resources

  values-append : (xs ys : List (AsyncLazy T)) → values (xs ++ ys) ≡ values xs ++ values ys
  values-append [] ys = refl
  values-append (x ∷ xs) ys = elim (Option-cases x.value) [
    | inl n ↦ ground (arith, values-append xs ys)
    | inr (v, n) ↦ ground (arith, values-append xs ys)
  ]

  append_nil : (vs : List T) → vs ++ [] ≡ vs
  append_nil [] = refl
  append_nil (v ∷ vs) = ap (λ rest. v ∷ rest) (append_nil vs)

  reverse-held : (o : Option T) (vs : List T) → reverse (held o ++ vs) ≡ reverse vs ++ held o
  reverse-held none vs = sym (append_nil (reverse vs))
  reverse-held (some v) vs = reverse-cons v vs

  values-reverse : (xs : List (AsyncLazy T)) → values (reverse xs) ≡ reverse (values xs)
  values-reverse [] = refl
  values-reverse (x ∷ xs) = rw (reverse-cons x xs) (
      rw (values-append (reverse xs) (x ∷ [])) (
        rw (values-reverse xs) (
          rw (reverse-held x.value (values xs))
            (ap (λ vs. reverse (values xs) ++ vs) (append_nil (held x.value))))))

  values-blocked : (xs : List (AsyncLazy T)) → values (map begin_close xs) ≡ values xs
  unfolding begin_close
  values-blocked [] = refl
  values-blocked (x ∷ xs) = ap (λ vs. held x.value ++ vs) (values-blocked xs)

module _ {T E W : Type 0} (closer : T → W → Option E × W) where
  -- The closer is run on each value, in this order, whether it raises or not.
  abbrev pub run_closer : List T → W → W
  run_closer [] w = w
  run_closer (v ∷ vs) w = run_closer vs (closer v w).1

  close_each-world :
      (resources : List (AsyncLazy T)) (w : W)
      → (close_each closer resources w).1 ≡ run_closer (values resources) w
  unfolding close_each aclose go_on call_aclose enter_aclose begin_close
  close_each-world [] w = refl
  close_each-world (lazy ∷ resources) w = elim (Option-cases lazy.value) [
    | inl n ↦ ground (arith, close_each-world resources w)
    | inr (v, n) ↦ ground (arith, close_each-world resources (closer v w).1)
  ]

  aclose-closed : (lazy : AsyncLazy T) (w : W) → (aclose closer lazy w).0.1.closed ≡ true
  unfolding aclose go_on call_aclose enter_aclose begin_close after_closer leave_closer
  aclose-closed lazy w = elim (Option-cases lazy.value) [
    | inl n ↦ ground arith
    | inr (v, n) ↦ elim (Option-cases (closer v w).0) [
      | inl e ↦ ground arith
      | inr (d, e) ↦ ground arith
    ]
  ]

  -- A resource keeps its value just if its closer raised.
  aclose-kept :
      (lazy : AsyncLazy T) (w : W) (errors : List E) (others : List (AsyncLazy T))
      → length errors ≡ length (values others)
      → length (collect closer (aclose closer lazy w).0.0 errors)
        ≡ length (values ((aclose closer lazy w).0.1 ∷ others))
  unfolding aclose go_on call_aclose enter_aclose begin_close after_closer leave_closer collect
  aclose-kept lazy w errors others h = elim (Option-cases lazy.value) [
    | inl n ↦ ground arith
    | inr (v, n) ↦ elim (Option-cases (closer v w).0) [
      | inl e ↦ ground arith
      | inr (d, e) ↦ ground arith
    ]
  ]

  close_each-closed :
      (resources : List (AsyncLazy T)) (w : W)
      → all (λ lazy. lazy.closed) (close_each closer resources w).0.1 ≡ true
  unfolding close_each
  close_each-closed [] w = refl
  close_each-closed (lazy ∷ resources) w =
      ground (arith, aclose-closed lazy w, close_each-closed resources (aclose closer lazy w).1)

  close_each-kept :
      (resources : List (AsyncLazy T)) (w : W)
      → length (close_each closer resources w).0.0
        ≡ length (values (close_each closer resources w).0.1)
  unfolding close_each
  close_each-kept [] w = refl
  close_each-kept (lazy ∷ resources) w =
      aclose-kept lazy w _ (close_each closer resources (aclose closer lazy w).1).0.1
        (close_each-kept resources (aclose closer lazy w).1)

  -- Whichever closers raise: all resources of the group end closed; the closer was run on every value
  -- once, the last resource first; and as many errors are raised as resources still hold a value.
  pub close_lazy_resources-all :
      (resources : List (AsyncLazy T)) (w : W)
      → (all (λ lazy. lazy.closed) (close_lazy_resources closer resources w).0.1 ≡ true)
        × ((close_lazy_resources closer resources w).1 ≡ run_closer (reverse (values resources)) w)
        × (length (close_lazy_resources closer resources w).0.0
            ≡ length (values (close_lazy_resources closer resources w).0.1))
  unfolding close_lazy_resources
  close_lazy_resources-all resources w =
      let blocked = map begin_close resources in
      (
        all-reverse (λ (lazy : AsyncLazy T). lazy.closed)
              (close_each closer (reverse blocked) w).0.1
            ∙ close_each-closed (reverse blocked) w,
        close_each-world (reverse blocked) w
            ∙ ap (λ vs. run_closer vs w)
                (values-reverse blocked ∙ ap reverse (values-blocked resources)),
        rw (values-reverse (close_each closer (reverse blocked) w).0.1)
            (close_each-kept (reverse blocked) w ∙ sym (length-reverse _)),
      )
