-- ===== src/Queue/Resolver/Resolved.antt =====
-- Every job type that a worker starts with is resolved by each of its references and versions.
use fast_api_scaff.Prelude.{
  ℕ, ◌≡◌, ◌∙◌, true, List, [], ◌∷◌, any, ltb, ◌==◌, Bool-cases, Text, text_eq, ok, and_then-eq_ok,
  ok_injective, All, inl, inr, arith, Bool,
}
use fast_api_scaff.Queue.Job.{JobType, JobDescriptor, describe_job, decoder_for}
use fast_api_scaff.Queue.Resolver.{
  Catalogue, references_of, versions_of, take_references, bind_references, add_job_type,
  add_job_types, new_resolver, resolve,
}
use fast_api_scaff.Queue.Resolver.Registered.{
  take_references-keeps, take_references-takes, take_references-new, Bound, bind_references-Bound,
  bind_references-find,
}

module _ {Policy Codec Decoder : Type 0} (as_decoder : Codec → Decoder) (is_space : ℕ → Bool)
    (json_codec : ℕ → Codec) where
  -- The descriptor is in the catalogue under all its references, in all its versions.
  pub record Registered (d : JobDescriptor Policy Codec Decoder)
      (c : Catalogue Policy Codec Decoder) : Type 0 where
    pub taken :
        (r : Text) → any (text_eq r) (references_of d) ≡ true → any (text_eq r) c.references ≡ true
    pub bound :
        (r : Text) (version : ℕ)
        → any (text_eq r) (references_of d) ≡ true
        → any (λ v. version == v) (versions_of d) ≡ true
        → Bound as_decoder d r version c.bindings

  -- What a turn of the loop has done where it did not raise.
  pub record Added (t : JobType Policy Codec Decoder) (c after : Catalogue Policy Codec Decoder)
      : Type 0 where
    pub descriptor : JobDescriptor Policy Codec Decoder
    pub described : describe_job is_space json_codec t ≡ ok descriptor
    pub references : take_references (references_of descriptor) c.references ≡ ok after.references
    pub bindings :
        bind_references as_decoder descriptor (references_of descriptor) c.bindings
        ≡ ok after.bindings

  add_job_type-eq_ok :
      (t : JobType Policy Codec Decoder) (c after : Catalogue Policy Codec Decoder)
      → add_job_type as_decoder is_space json_codec t c ≡ ok after
      → Added t c after
  unfolding add_job_type
  add_job_type-eq_ok t c after e =
      let (d, described, e2) = and_then-eq_ok (describe_job is_space json_codec t) _ e in
      let (references, taken, e3) =
        and_then-eq_ok (take_references (references_of d) c.references) _ e2 in
      let (bindings, bound, e4) =
        and_then-eq_ok (bind_references as_decoder d (references_of d) c.bindings) _ e3 in
      record {
        descriptor = d;
        described = described;
        references = rw (← ok_injective e4) taken;
        bindings = rw (← ok_injective e4) bound;
      }

  Added-Registered :
      (t : JobType Policy Codec Decoder) (c after : Catalogue Policy Codec Decoder)
      (added : Added t c after)
      → Registered added.descriptor after
  Added-Registered t c after added = record {
    taken = λ r. take_references-takes _ c.references after.references r added.references;
    bound = λ r version h k.
        bind_references-Bound as_decoder added.descriptor r version _ c.bindings after.bindings k
          added.bindings (inl h);
  }

  Added-keeps :
      (t : JobType Policy Codec Decoder) (c after : Catalogue Policy Codec Decoder)
      (d : JobDescriptor Policy Codec Decoder)
      → Added t c after
      → Registered d c
      → Registered d after
  Added-keeps t c after d added registered = record {
    taken = λ r h.
        take_references-keeps _ c.references after.references r added.references
          (registered.taken r h);
    bound = λ r version h k.
        let other =
          take_references-new _ c.references after.references r added.references
            (registered.taken r h) in
        let b = registered.bound r version h k in
        record {
          decoder = b.decoder;
          decodes = b.decodes;
          binds =
              bind_references-find as_decoder added.descriptor r version _ c.bindings after.bindings
                added.bindings other
              ∙ b.binds;
        };
  }

  add_job_types-keeps :
      (types : List (JobType Policy Codec Decoder)) (c after : Catalogue Policy Codec Decoder)
      (d : JobDescriptor Policy Codec Decoder)
      → add_job_types as_decoder is_space json_codec types c ≡ ok after
      → Registered d c
      → Registered d after
  unfolding add_job_types
  add_job_types-keeps [] c after d e h = rw (← ok_injective e) h
  add_job_types-keeps (t ∷ types) c after d e h =
      let (middle, first, rest) =
        and_then-eq_ok (add_job_type as_decoder is_space json_codec t c) _ e in
      add_job_types-keeps types middle after d rest
        (Added-keeps t c middle d (add_job_type-eq_ok t c middle first) h)

  -- The job type is described, and found under each of its references in each of its versions, with
  -- the decoder of the version.
  abbrev pub Resolved : Catalogue Policy Codec Decoder → JobType Policy Codec Decoder → Type 0
  Resolved c t =
      (d : JobDescriptor Policy Codec Decoder) × (describe_job is_space json_codec t ≡ ok d)
      × ((r : Text) (version : ℕ)
          → any (text_eq r) (references_of d) ≡ true
          → any (λ v. version == v) (versions_of d) ≡ true
          → (decoder : Decoder) × (decoder_for as_decoder d version ≡ ok decoder)
            × (resolve c r version ≡ ok (record { descriptor = d; decoder = decoder })))

  Registered-resolve :
      (c : Catalogue Policy Codec Decoder) (d : JobDescriptor Policy Codec Decoder)
      → Registered d c
      → (r : Text) (version : ℕ) → any (text_eq r) (references_of d) ≡ true
      → any (λ v. version == v) (versions_of d) ≡ true
      → (decoder : Decoder) × (decoder_for as_decoder d version ≡ ok decoder)
        × (resolve c r version ≡ ok (record { descriptor = d; decoder = decoder }))
  unfolding resolve decoder_for
  Registered-resolve c d registered r version h k =
      let b = registered.bound r version h k in
      let taken = registered.taken r h in
      (
        b.decoder,
        b.decodes,
        elim (Bool-cases (ltb version 1)) [
          | inl zero ↦ let decodes = b.decodes in ground arith
          | inr positive ↦ let binds = b.binds in ground arith
        ],
      )

  add_job_types-Resolved :
      (types : List (JobType Policy Codec Decoder)) (c after : Catalogue Policy Codec Decoder)
      → add_job_types as_decoder is_space json_codec types c ≡ ok after
      → All (Resolved after) types
  unfolding add_job_types
  add_job_types-Resolved [] c after e = tt
  add_job_types-Resolved (t ∷ types) c after e =
      let (middle, first, rest) =
        and_then-eq_ok (add_job_type as_decoder is_space json_codec t c) _ e in
      let added = add_job_type-eq_ok t c middle first in
      let kept =
        add_job_types-keeps types middle after added.descriptor rest
          (Added-Registered t c middle added) in
      (
        (added.descriptor, added.described, Registered-resolve after added.descriptor kept),
        add_job_types-Resolved types middle after rest,
      )

  -- Where a catalogue is built at all, every job type that it was built from is found under its
  -- reference and each of its legacy references, in its version and each of its legacy versions, and
  -- always with its own descriptor and the decoder of that version: no other job type shadows it.
  pub new_resolver-Resolved :
      (types : List (JobType Policy Codec Decoder)) (c : Catalogue Policy Codec Decoder)
      → new_resolver as_decoder is_space json_codec types ≡ ok c
      → All (Resolved c) types
  new_resolver-Resolved types c e = add_job_types-Resolved types _ c e
