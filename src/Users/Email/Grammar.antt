-- ===== src/Users/Email/Grammar.antt =====
-- The matcher of Email.antt against the pattern read as a grammar.
use fast_api_scaff.Prelude.{
  ℕ, ◌≡◌, refl, ap, ◌↔◌, Bool, true, false, not, ◌&&◌, [], ◌∷◌, ◌++◌, arith, ◌==◌, Text, all,
  is_empty, Bool-cases, inl, inr, and-eq_true, all-append,
}
use fast_api_scaff.Users.Email.{is_plain, has_dot, matches_domain, matches_local, matches_email}

module _ (is_space : ℕ → Bool) where
  -- Non-empty, and without an at sign or white space.
  abbrev pub IsPart : Text → Type 0
  IsPart t = (all (is_plain is_space) t ≡ true) × (is_empty t ≡ false)

  -- A name, a full stop and a top.
  pub record IsDomain (t : Text) : Type 0 where
    pub name : Text
    pub top : Text
    pub split : t ≡ name ++ (b'.' ∷ top)
    pub name_part : IsPart name
    pub top_part : IsPart top

  pub record IsEmail (t : Text) : Type 0 where
    pub local : Text
    pub domain : Text
    pub split : t ≡ local ++ (b'@' ∷ domain)
    pub local_part : IsPart local
    pub domain_part : IsDomain domain

  has_dot-split :
      (t : Text)
      → has_dot is_space t ≡ true
      → (name : Text) × (top : Text) × (t ≡ name ++ (b'.' ∷ top)) × (is_empty top ≡ false)
  unfolding has_dot
  has_dot-split [] h = ground arith
  has_dot-split (c ∷ t) h = elim (Bool-cases (c == b'.' && not (is_empty t))) [
    | inl here ↦ ([], t, ground arith, ground arith)
    | inr later ↦
        let (name, top, e, f) = has_dot-split t (ground arith) in
        (c ∷ name, top, ap (λ r. c ∷ r) e, f)
  ]

  has_dot-append :
      (name top : Text) → is_empty top ≡ false → has_dot is_space (name ++ (b'.' ∷ top)) ≡ true
  unfolding has_dot
  has_dot-append [] top h = ground arith
  has_dot-append (c ∷ name) top h = ground (arith, has_dot-append name top h)

  IsDomain-split :
      (c : ℕ) (name top : Text)
      → is_plain is_space c ≡ true
      → all (is_plain is_space) (name ++ (b'.' ∷ top)) ≡ true
      → is_empty top ≡ false
      → IsDomain (c ∷ (name ++ (b'.' ∷ top)))
  IsDomain-split c name top p q f = record {
    name = c ∷ name;
    top = top;
    split = refl;
    name_part = ground (arith, all-append (is_plain is_space) name (b'.' ∷ top));
    top_part = ground (arith, all-append (is_plain is_space) name (b'.' ∷ top));
  }

  IsDomain-sound : (t : Text) → matches_domain is_space t ≡ true → IsDomain t
  unfolding matches_domain
  IsDomain-sound [] h = cc
  IsDomain-sound (c ∷ t) h =
      let (both, dot) = and-eq_true (is_plain is_space c && all (is_plain is_space) t) _ h in
      let (p, q) = and-eq_true (is_plain is_space c) _ both in
      let (name, top, e, f) = has_dot-split t dot in
      rw e (IsDomain-split c name top p (rw e at q) f)

  domain_append :
      (name top : Text)
      → IsPart name
      → IsPart top
      → is_space b'.' ≡ false
      → matches_domain is_space (name ++ (b'.' ∷ top)) ≡ true
  unfolding matches_domain
  domain_append [] top n t dot = ground arith
  domain_append (c ∷ name) top n t dot =
      ground (arith, all-append (is_plain is_space) name (b'.' ∷ top), has_dot-append name top t.1)

  local-split :
      (t : Text)
      → matches_local is_space t ≡ true
      → (local : Text) × (domain : Text) × (t ≡ local ++ (b'@' ∷ domain))
        × (all (is_plain is_space) local ≡ true)
        × (matches_domain is_space domain ≡ true)
  unfolding matches_local
  local-split [] h = cc
  local-split (c ∷ t) h = elim (Bool-cases (c == b'@')) [
    | inl here ↦ ([], t, ground arith, refl, ground arith)
    | inr later ↦
        let (local, domain, e, p, d) = local-split t (ground arith) in
        (c ∷ local, domain, ap (λ r. c ∷ r) e, ground arith, d)
  ]

  local_append :
      (local domain : Text)
      → all (is_plain is_space) local ≡ true
      → matches_domain is_space domain ≡ true
      → matches_local is_space (local ++ (b'@' ∷ domain)) ≡ true
  unfolding matches_local
  local_append [] domain p d = ground arith
  local_append (c ∷ local) domain p d = ground (arith, local_append local domain)

  matches_email_sound : (t : Text) → matches_email is_space t ≡ true → IsEmail t
  unfolding matches_email
  matches_email_sound [] h = cc
  matches_email_sound (c ∷ t) h =
      let (local, domain, e, p, d) = local-split t (ground arith) in
      record {
        local = c ∷ local;
        domain = domain;
        split = ap (λ r. c ∷ r) e;
        local_part = ground arith;
        domain_part = IsDomain-sound domain d;
      }

  matches_email_append :
      (local domain : Text)
      → IsPart local
      → matches_domain is_space domain ≡ true
      → matches_email is_space (local ++ (b'@' ∷ domain)) ≡ true
  unfolding matches_email
  matches_email_append [] domain p d = ground arith
  matches_email_append (c ∷ local) domain p d = ground (arith, local_append local domain)

  -- The matcher accepts exactly the texts of the form local@name.top, each part non-empty and free
  -- of white space and at signs, where a full stop is no white space.
  pub matches_email-iff-IsEmail :
      is_space b'.' ≡ false → (t : Text) → (matches_email is_space t ≡ true) ↔ IsEmail t
  matches_email-iff-IsEmail dot t = (
    matches_email_sound t,
    λ m. rw m.split (
        matches_email_append m.local m.domain m.local_part (
          rw m.domain_part.split (
            domain_append m.domain_part.name m.domain_part.top m.domain_part.name_part
              m.domain_part.top_part dot))),
  )
