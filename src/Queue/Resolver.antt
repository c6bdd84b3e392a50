-- ===== src/Queue/Resolver.antt =====
-- app/interfaces/worker/resolver.py: the catalogue of job types that a worker starts with, and the
-- look-up of a message's reference and version in it.
pub mod Registered
pub mod Resolved
use fast_api_scaff.Prelude.{
  ℕ, Bool, not, Option, none, some, List, [], ◌∷◌, ◌++◌, map, any, ltb, ◌==◌, ◌&&◌, if◌then◌else◌,
  Text, text_eq, text_below, Result, ok, err, and_then,
}
use fast_api_scaff.Queue.Job.{
  QueueError, queue_configuration_error, JobType, JobDescriptor, describe_job, decoder_for,
}
use fast_api_scaff.Worker.Executor.{
  ResolutionError, unknown_job_error, unsupported_job_version_error,
}

module _ (Policy Codec Decoder : Type 0) where
  -- `JobBinding`
  pub record JobBinding : Type 0 where
    pub descriptor : JobDescriptor Policy Codec Decoder
    pub decoder : Decoder

  -- An entry of the dict of bindings, the last one first.
  pub record Entry : Type 0 where
    pub reference : Text
    pub version : ℕ
    pub binding : JobBinding

  -- The three collections of `__post_init__`.
  pub record Catalogue : Type 0 where
    pub references : List Text
    pub bindings : List Entry
    pub descriptors : List (JobDescriptor Policy Codec Decoder)

-- The references of one job type, none of which may be taken.
unfoldable pub take_references : List Text → List Text → Result QueueError (List Text)
take_references [] taken = ok taken
take_references (reference ∷ references) taken =
    if any (text_eq reference) taken
    then err queue_configuration_error
    else take_references references (reference ∷ taken)

module _ {Policy Codec Decoder : Type 0} where
  unfoldable pub find_binding :
      Text → ℕ → List (Entry Policy Codec Decoder) → Option (JobBinding Policy Codec Decoder)
  find_binding reference version [] = none
  find_binding reference version (entry ∷ entries) =
      let rest = find_binding reference version entries in
      if text_eq reference entry.reference && version == entry.version
      then some entry.binding
      else rest

  -- `(descriptor.reference, *descriptor.legacy_references)`
  abbrev pub references_of : JobDescriptor Policy Codec Decoder → List Text
  references_of d = d.reference ∷ d.legacy_references

  -- `(descriptor.version, *descriptor.legacy_decoders)`
  abbrev pub versions_of : JobDescriptor Policy Codec Decoder → List ℕ
  versions_of d = d.version ∷ map (λ (entry : ℕ × Decoder). entry.0) d.legacy_decoders

  unfoldable pub insert_descriptor :
      JobDescriptor Policy Codec Decoder
      → List (JobDescriptor Policy Codec Decoder)
      → List (JobDescriptor Policy Codec Decoder)
  insert_descriptor d [] = d ∷ []
  insert_descriptor d (e ∷ descriptors) =
      let rest = insert_descriptor d descriptors in
      if text_below d.reference e.reference then d ∷ (e ∷ descriptors) else e ∷ rest

  module _ (as_decoder : Codec → Decoder) where
    unfoldable pub bind_versions :
        JobDescriptor Policy Codec Decoder
        → Text
        → List ℕ
        → List (Entry Policy Codec Decoder)
        → Result QueueError (List (Entry Policy Codec Decoder))
    bind_versions d reference [] entries = ok entries
    bind_versions d reference (version ∷ versions) entries =
        and_then (decoder_for as_decoder d version) (λ decoder. bind_versions d reference versions (
          record {
            reference = reference;
            version = version;
            binding = record { descriptor = d; decoder = decoder };
          }
          ∷ entries))

    unfoldable pub bind_references :
        JobDescriptor Policy Codec Decoder
        → List Text
        → List (Entry Policy Codec Decoder)
        → Result QueueError (List (Entry Policy Codec Decoder))
    unfolding bind_versions
    bind_references d [] entries = ok entries
    bind_references d (reference ∷ references) entries =
        and_then (bind_versions d reference (versions_of d) entries) (bind_references d references)

    module _ (is_space : ℕ → Bool) (json_codec : ℕ → Codec) where
      -- One turn of the loop of `__post_init__`. The sort at its end is an insertion here.
      unfoldable pub add_job_type :
          JobType Policy Codec Decoder
          → Catalogue Policy Codec Decoder
          → Result QueueError (Catalogue Policy Codec Decoder)
      unfolding take_references bind_references insert_descriptor
      add_job_type t c = and_then (describe_job is_space json_codec t) (λ d.
          and_then (take_references (references_of d) c.references) (λ references.
            and_then (bind_references d (references_of d) c.bindings) (λ bindings. ok (record {
              references = references;
              bindings = bindings;
              descriptors = insert_descriptor d c.descriptors;
            }))))

      unfoldable pub add_job_types :
          List (JobType Policy Codec Decoder)
          → Catalogue Policy Codec Decoder
          → Result QueueError (Catalogue Policy Codec Decoder)
      unfolding add_job_type
      add_job_types [] c = ok c
      add_job_types (t ∷ types) c = and_then (add_job_type t c) (add_job_types types)

      -- `JobResolver`
      abbrev pub new_resolver :
          List (JobType Policy Codec Decoder) → Result QueueError (Catalogue Policy Codec Decoder)
      new_resolver types =
          add_job_types types (record { references = []; bindings = []; descriptors = [] })

  abbrev bound :
      Option (JobBinding Policy Codec Decoder)
      → Result ResolutionError (JobBinding Policy Codec Decoder)
  bound none = err unsupported_job_version_error
  bound (some binding) = ok binding

  -- `resolve`
  unfoldable pub resolve :
      Catalogue Policy Codec Decoder
      → Text
      → ℕ
      → Result ResolutionError (JobBinding Policy Codec Decoder)
  unfolding find_binding
  resolve c reference version =
      if not (any (text_eq reference) c.references)
      then err unknown_job_error
      else if ltb version 1
      then err unsupported_job_version_error
      else bound (find_binding reference version c.bindings)
