-- ===== src/Users/Values/Normal.antt =====
-- Accepted values are their own normal form.
use fast_api_scaff.Prelude.{
  ℕ, ◌≡◌, refl, ap, ◌∙◌, Bool, true, false, not, [], ◌∷◌, reverse, arith, Text, all, length, ltb,
  ok, and-eq_true, all-reverse, ==_iff,
}
use mathlib.Core.List.{reverse-reverse}
use fast_api_scaff.Users.Unicode.{Unicode, is_word, lstrip, strip}
use fast_api_scaff.Users.Values.{
  Username, EmailAddress, normalize, matches_username, new_username, new_email_address,
}
use fast_api_scaff.Users.Email.{is_plain, matches_domain, matches_local, matches_email}

module _ (is_space : ℕ → Bool) where
  -- No white space anywhere.
  abbrev NoSpace : Text → Type 0
  NoSpace t = all (λ c. not (is_space c)) t ≡ true

  lstrip-NoSpace : (t : Text) → NoSpace t → lstrip is_space t ≡ t
  unfolding lstrip
  lstrip-NoSpace [] h = refl
  lstrip-NoSpace (c ∷ t) h = ground arith

  strip-NoSpace : (t : Text) → NoSpace t → strip is_space t ≡ t
  unfolding strip
  strip-NoSpace t h = rw (lstrip-NoSpace t h) (
      rw (lstrip-NoSpace (reverse t) (rw (all-reverse (λ c. not (is_space c)) t) h))
        (reverse-reverse t))

  all_plain-NoSpace : (t : Text) → all (is_plain is_space) t ≡ true → NoSpace t
  all_plain-NoSpace [] h = refl
  all_plain-NoSpace (c ∷ t) h = ground (arith, all_plain-NoSpace t)

  matches_domain-NoSpace : (t : Text) → matches_domain is_space t ≡ true → NoSpace t
  unfolding matches_domain
  matches_domain-NoSpace [] h = refl
  matches_domain-NoSpace (c ∷ t) h =
      all_plain-NoSpace (c ∷ t) (and-eq_true (all (is_plain is_space) (c ∷ t)) _ h).0

  matches_local-NoSpace :
      (t : Text) → is_space b'@' ≡ false → matches_local is_space t ≡ true → NoSpace t
  unfolding matches_local
  matches_local-NoSpace [] at_sign h = refl
  matches_local-NoSpace (c ∷ t) at_sign h =
      ground (arith, matches_domain-NoSpace t, matches_local-NoSpace t at_sign, ==_iff c b'@')

  matches_email-NoSpace :
      (t : Text) → is_space b'@' ≡ false → matches_email is_space t ≡ true → NoSpace t
  unfolding matches_email
  matches_email-NoSpace [] at_sign h = refl
  matches_email-NoSpace (c ∷ t) at_sign h = ground (arith, matches_local-NoSpace t at_sign)

module _ (unicode : Unicode) where
  open unicode use {is_space}

  all_word-NoSpace : (t : Text) → all is_word t ≡ true → NoSpace is_space t
  all_word-NoSpace [] h = refl
  all_word-NoSpace (c ∷ t) h = ground (arith, unicode.word-not_space c, all_word-NoSpace t)

  normalize-NoSpace : (t : Text) → NoSpace is_space t → normalize unicode t ≡ unicode.lower t
  unfolding normalize
  normalize-NoSpace t h = ap unicode.lower (strip-NoSpace is_space t h)

  lower-normalize : (raw : Text) → unicode.lower (normalize unicode raw) ≡ normalize unicode raw
  unfolding normalize
  lower-normalize raw = unicode.lower-lower _

  normalize-normalize :
      (raw : Text)
      → NoSpace is_space (normalize unicode raw)
      → normalize unicode (normalize unicode raw) ≡ normalize unicode raw
  normalize-normalize raw h = normalize-NoSpace _ h ∙ lower-normalize raw

  new_username_inv :
      (raw : Text) (name : Username)
      → new_username unicode raw ≡ ok name
      → (name ≡ record { value = normalize unicode raw })
        × (matches_username (normalize unicode raw) ≡ true)
  unfolding new_username
  new_username_inv raw name h = ground arith

  new_email_address_inv :
      (raw : Text) (email : EmailAddress)
      → new_email_address unicode raw ≡ ok email
      → (email ≡ record { value = normalize unicode raw })
        × (ltb 254 (length (normalize unicode raw)) ≡ false)
        × (matches_email is_space (normalize unicode raw) ≡ true)
  unfolding new_email_address
  new_email_address_inv raw email h = ground arith

  matches_username-NoSpace : (t : Text) → matches_username t ≡ true → NoSpace is_space t
  unfolding matches_username
  matches_username-NoSpace t h = all_word-NoSpace t (and-eq_true (all is_word t) _ h).0

  -- A username that was accepted is accepted again, unchanged: `Username(username.value)`.
  pub new_username_again :
      (raw : Text) (name : Username)
      → new_username unicode raw ≡ ok name
      → new_username unicode name.value ≡ ok name
  unfolding new_username
  new_username_again raw name h =
      let (e, m) = new_username_inv raw name h in
      rw e (rw (normalize-normalize raw (matches_username-NoSpace _ m)) (ground arith))

  -- An address that was accepted is accepted again, unchanged.
  pub new_email_address_again :
      (raw : Text) (email : EmailAddress)
      → new_email_address unicode raw ≡ ok email
      → new_email_address unicode email.value ≡ ok email
  unfolding new_email_address
  new_email_address_again raw email h =
      let (e, small, m) = new_email_address_inv raw email h in
      rw e (
        rw (normalize-normalize raw (matches_email-NoSpace is_space _ unicode.at-not_space m))
          (ground arith))
