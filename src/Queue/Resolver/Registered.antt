-- ===== src/Queue/Resolver/Registered.antt =====
-- What the catalogue of a worker resolves.
use fast_api_scaff.Prelude.{
  ℕ, ◌≡◌, refl, ◌∙◌, true, false, some, List, [], ◌∷◌, any, ◌==◌, ◌&&◌, Text, text_eq, text_eq_iff,
  ok, and_then-eq_ok, ok_injective, ◌⊎◌, inl, inr, Bool-cases, ==_iff, arith,
}
use fast_api_scaff.Queue.Job.{JobDescriptor, decoder_for}
use fast_api_scaff.Queue.Resolver.{
  Entry, find_binding, versions_of, take_references, bind_versions, bind_references,
}

-- References are taken once.
pub take_references-keeps :
    (references taken after : List Text) (r : Text)
    → take_references references taken ≡ ok after
    → any (text_eq r) taken ≡ true
    → any (text_eq r) after ≡ true
unfolding take_references
take_references-keeps [] taken after r e h = rw (← ok_injective e) h
take_references-keeps (s ∷ references) taken after r e h =
    elim (Bool-cases (any (text_eq s) taken)) [
      | inl there ↦ ground arith
      | inr free ↦
          take_references-keeps references (s ∷ taken) after r (ground (arith, e)) (ground arith)
    ]

pub take_references-takes :
    (references taken after : List Text) (r : Text)
    → take_references references taken ≡ ok after
    → any (text_eq r) references ≡ true
    → any (text_eq r) after ≡ true
unfolding take_references
take_references-takes [] taken after r e h = cc
take_references-takes (s ∷ references) taken after r e h =
    elim (Bool-cases (any (text_eq s) taken)) [
      | inl there ↦ ground arith
      | inr free ↦
          let rest : take_references references (s ∷ taken) ≡ ok after = ground (arith, e) in
          elim (Bool-cases (text_eq r s)) [
            | inl same ↦ take_references-keeps references (s ∷ taken) after r rest (ground arith)
            | inr other ↦ take_references-takes references (s ∷ taken) after r rest (ground arith)
          ]
    ]

-- A reference that was taken before is none of those.
pub take_references-new :
    (references taken after : List Text) (r : Text)
    → take_references references taken ≡ ok after
    → any (text_eq r) taken ≡ true
    → any (text_eq r) references ≡ false
unfolding take_references
take_references-new [] taken after r e h = refl
take_references-new (s ∷ references) taken after r e h = elim (Bool-cases (any (text_eq s) taken)) [
  | inl there ↦ ground arith
  | inr free ↦
      let rest =
        take_references-new references (s ∷ taken) after r (ground (arith, e)) (ground arith) in
      elim (Bool-cases (text_eq r s)) [
        | inl same ↦
            let equal = (text_eq_iff r s).0 same in
            let absent : any (text_eq r) taken ≡ false = rw equal free in cc
        | inr other ↦ ground arith
      ]
]

module _ {Policy Codec Decoder : Type 0} (as_decoder : Codec → Decoder)
    (d : JobDescriptor Policy Codec Decoder) where
  -- The version of the reference is bound to the descriptor, with its decoder.
  pub record Bound (r : Text) (version : ℕ) (entries : List (Entry Policy Codec Decoder))
      : Type 0 where
    pub decoder : Decoder
    pub decodes : decoder_for as_decoder d version ≡ ok decoder
    pub binds : find_binding r version entries ≡ some (record { descriptor = d; decoder = decoder })

  -- One more binding to the same descriptor.
  Bound-entry :
      (s r : Text) (v version : ℕ) (decoder : Decoder) (entries : List (Entry Policy Codec Decoder))
      → decoder_for as_decoder d v ≡ ok decoder
      → ((text_eq r s && version == v) ≡ true) ⊎ Bound r version entries
      → Bound r version (
          record {
            reference = s;
            version = v;
            binding = record { descriptor = d; decoder = decoder };
          }
          ∷ entries)
  unfolding find_binding
  Bound-entry s r v version decoder entries e (inl this) = record {
    decoder = decoder;
    decodes = rw ((==_iff version v).0 (ground arith)) e;
    binds = ground arith;
  }
  Bound-entry s r v version decoder entries e (inr b) =
      elim (Bool-cases (text_eq r s && version == v)) [
        | inl this ↦ record {
          decoder = decoder;
          decodes = rw ((==_iff version v).0 (ground arith)) e;
          binds = ground arith;
        }
        | inr other ↦ record {
          decoder = b.decoder;
          decodes = b.decodes;
          binds = ground (arith, b.binds);
        }
      ]

  bind_versions-Bound :
      (s r : Text) (version : ℕ) (versions : List ℕ)
      (entries after : List (Entry Policy Codec Decoder))
      → bind_versions as_decoder d s versions entries ≡ ok after
      → ((text_eq r s && any (λ v. version == v) versions) ≡ true) ⊎ Bound r version entries
      → Bound r version after
  unfolding bind_versions
  bind_versions-Bound s r version [] entries after e (inl this) = absurd (ground arith)
  bind_versions-Bound s r version [] entries after e (inr b) = rw (← ok_injective e) b
  bind_versions-Bound s r version (v ∷ versions) entries after e (inr b) =
      let (decoder, first, rest) = and_then-eq_ok (decoder_for as_decoder d v) _ e in
      bind_versions-Bound s r version versions _ after rest
        (inr (Bound-entry s r v version decoder entries first (inr b)))
  bind_versions-Bound s r version (v ∷ versions) entries after e (inl this) =
      let (decoder, first, rest) = and_then-eq_ok (decoder_for as_decoder d v) _ e in
      elim (Bool-cases (version == v)) [
        | inl now ↦
            bind_versions-Bound s r version versions _ after rest
              (inr (Bound-entry s r v version decoder entries first (inl (ground arith))))
        | inr later ↦ bind_versions-Bound s r version versions _ after rest (inl (ground arith))
      ]

  pub bind_references-Bound :
      (r : Text) (version : ℕ) (references : List Text)
      (entries after : List (Entry Policy Codec Decoder))
      → any (λ v. version == v) (versions_of d) ≡ true
      → bind_references as_decoder d references entries ≡ ok after
      → (any (text_eq r) references ≡ true) ⊎ Bound r version entries
      → Bound r version after
  unfolding bind_references
  bind_references-Bound r version [] entries after h e (inl this) = absurd (ground arith)
  bind_references-Bound r version [] entries after h e (inr b) = rw (← ok_injective e) b
  bind_references-Bound r version (s ∷ references) entries after h e (inr b) =
      let (middle, first, rest) =
        and_then-eq_ok (bind_versions as_decoder d s (versions_of d) entries) _ e in
      bind_references-Bound r version references middle after h rest
        (inr (bind_versions-Bound s r version (versions_of d) entries middle first (inr b)))
  bind_references-Bound r version (s ∷ references) entries after h e (inl this) =
      let (middle, first, rest) =
        and_then-eq_ok (bind_versions as_decoder d s (versions_of d) entries) _ e in
      elim (Bool-cases (text_eq r s)) [
        | inl now ↦ bind_references-Bound r version references middle after h rest (
            inr (
              bind_versions-Bound s r version (versions_of d) entries middle first
                (inl (ground (arith, h)))))
        | inr later ↦
            bind_references-Bound r version references middle after h rest (inl (ground arith))
      ]

module _ {Policy Codec Decoder : Type 0} (as_decoder : Codec → Decoder)
    (d : JobDescriptor Policy Codec Decoder) where
  -- Bindings of other references.
  bind_versions-find :
      (s r : Text) (version : ℕ) (versions : List ℕ)
      (entries after : List (Entry Policy Codec Decoder))
      → bind_versions as_decoder d s versions entries ≡ ok after
      → text_eq r s ≡ false
      → find_binding r version after ≡ find_binding r version entries
  unfolding bind_versions find_binding
  bind_versions-find s r version [] entries after e other = rw (ok_injective e) refl
  bind_versions-find s r version (v ∷ versions) entries after e other =
      let (decoder, first, rest) = and_then-eq_ok (decoder_for as_decoder d v) _ e in
      bind_versions-find s r version versions _ after rest other ∙ (ground arith)

  pub bind_references-find :
      (r : Text) (version : ℕ) (references : List Text)
      (entries after : List (Entry Policy Codec Decoder))
      → bind_references as_decoder d references entries ≡ ok after
      → any (text_eq r) references ≡ false
      → find_binding r version after ≡ find_binding r version entries
  unfolding bind_references
  bind_references-find r version [] entries after e other = rw (ok_injective e) refl
  bind_references-find r version (s ∷ references) entries after e other =
      let (middle, first, rest) =
        and_then-eq_ok (bind_versions as_decoder d s (versions_of d) entries) _ e in
      bind_references-find r version references middle after rest (ground arith)
      ∙ bind_versions-find s r version (versions_of d) entries middle first (ground arith)
