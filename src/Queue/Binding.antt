-- ===== src/Queue/Binding.antt =====
-- app/interfaces/worker/resolver.py: `JobBinding.execute`, and a message from its encoding to its
-- handler.
use fast_api_scaff.Prelude.{
  ℕ, Bool, ◌≡◌, refl, and_then-eq_ok, ◌||◌, sym, ap, ◌∙◌, not, ◌==◌, ==_refl, text_eq_refl,
  if◌then◌else◌, List, Bool-cases, inl, inr, Result, ok, err, All, arith, Action, All-map,
}
use fast_api_scaff.Worker.Executor.{ResolutionError}
use fast_api_scaff.Queue.Job.{
  JobType, JobDescriptor, EncodedJob, describe_job, job_reference, validate_legacy_references,
  decoder_for, encode, codec_of,
}
use fast_api_scaff.Queue.Resolver.{JobBinding, Catalogue, new_resolver, resolve}
use fast_api_scaff.Queue.Resolver.Resolved.{Resolved, new_resolver-Resolved}

-- How a decoder fails: with its own error, with one that reports a bad message (`InvalidMessageError`
-- or pydantic's `ValidationError`), or with any other.
pub data DecodeFailure : Type 0 where
  decode_failed bad_message broken : DecodeFailure

pub data ExecutionError : Type 0 where
  job_decode_error job_definition_error : ExecutionError
  not_resolved : ResolutionError → ExecutionError

module _ {Policy Codec Decoder Job Payload W R : Type 0} (type_of : Job → ℕ)
    (decode : Decoder → Payload → Result DecodeFailure Job) (handle : Job → W → R × W) where
  abbrev handled :
      JobDescriptor Policy Codec Decoder → Result DecodeFailure Job → Action ExecutionError W R
  handled d (err decode_failed) w = (err job_decode_error, w)
  handled d (err bad_message) w = (err job_decode_error, w)
  handled d (err broken) w = (err job_definition_error, w)
  handled d (ok job) w =
      if not (type_of job == d.job_type)
      then (err job_definition_error, w)
      else (let (result, after) = handle job w in (ok result, after))

  -- `JobBinding.execute`
  unfoldable pub execute : JobBinding Policy Codec Decoder → Payload → Action ExecutionError W R
  execute b payload = handled b.descriptor (decode b.decoder payload)

  abbrev executed :
      Result ResolutionError (JobBinding Policy Codec Decoder) → Payload → Action ExecutionError W R
  executed (err error) payload w = (err (not_resolved error), w)
  executed (ok binding) payload w = execute binding payload w

  -- A message as the worker's executor takes it, once.
  unfoldable pub receive :
      Catalogue Policy Codec Decoder → EncodedJob Payload → Action ExecutionError W R
  unfolding execute
  receive c message = executed (resolve c message.job_type message.version) message.payload

-- The codec that a type of job declares.
abbrev pub own_codec :
    {Policy Codec Decoder : Type 0} → (ℕ → Codec) → JobType Policy Codec Decoder → Codec
own_codec json_codec t = codec_of json_codec t.codec t.job_type

describe_job-codec :
    {Policy Codec Decoder : Type 0} (is_space : ℕ → Bool) (json_codec : ℕ → Codec)
    (t : JobType Policy Codec Decoder) (d : JobDescriptor Policy Codec Decoder)
    → describe_job is_space json_codec t ≡ ok d
    → d.codec ≡ own_codec json_codec t
unfolding describe_job
describe_job-codec is_space json_codec t d h =
    elim (Bool-cases (not t.is_queue_job || t.is_abstract)) [
      | inl refused ↦ ground arith
      | inr fine ↦
          let (reference, known, h2) = and_then-eq_ok (job_reference is_space t) _ (rw fine at h) in
          let (legacy, checked, h3) =
            and_then-eq_ok (validate_legacy_references t.legacy_references reference) _ h2 in
          ground (arith, h3)
    ]

module _ {Policy Codec Decoder Job Payload W R : Type 0}
    (class_of : Job → JobType Policy Codec Decoder)
    (decode : Decoder → Payload → Result DecodeFailure Job) (handle : Job → W → R × W)
    (as_decoder : Codec → Decoder) (is_space : ℕ → Bool) (json_codec : ℕ → Codec)
    (encode_with : Codec → Job → Payload)
    (decodes : (job : Job)
      → decode
          (as_decoder (own_codec json_codec (class_of job)))
          (encode_with (own_codec json_codec (class_of job)) job)
        ≡ ok job) where
  abbrev type_of : Job → ℕ
  type_of job = (class_of job).job_type

  -- Jobs of the type that are encoded reach their handler.
  abbrev pub Received : Catalogue Policy Codec Decoder → JobType Policy Codec Decoder → Type 0
  Received c t =
      (d : JobDescriptor Policy Codec Decoder) × (describe_job is_space json_codec t ≡ ok d)
      × ((job : Job) (message : EncodedJob Payload) (w : W)
          → class_of job ≡ t
          → encode type_of encode_with d job ≡ ok message
          → receive type_of decode handle c message w ≡ (ok (handle job w).0, (handle job w).1))

  Resolved-Received :
      (c : Catalogue Policy Codec Decoder) (t : JobType Policy Codec Decoder)
      → Resolved as_decoder is_space json_codec c t
      → Received c t
  unfolding receive encode decoder_for
  Resolved-Received c t (d, described, resolves) = (
    d,
    described,
    λ job message w class e.
        let (decoder, chosen, found) =
          resolves d.reference d.version (ground (arith, text_eq_refl d.reference))
            (ground (arith, ==_refl d.version)) in
        elim (Bool-cases (type_of job == d.job_type)) [
          | inl same ↦
              let sent : record {
                job_type = d.reference;
                version = d.version;
                payload = encode_with d.codec job;
              }
                  ≡ message =
                ground arith in
              let current : as_decoder d.codec ≡ decoder = ground (arith, ==_refl d.version) in
              let own : d.codec ≡ own_codec json_codec (class_of job) =
                describe_job-codec is_space json_codec t d described
                ∙ ap (own_codec json_codec) (sym class) in
              let decoded : decode (as_decoder d.codec) (encode_with d.codec job) ≡ ok job =
                rw own (decodes job) in
              rw (← sent, found, ← current, decoded, same) refl
          | inr other ↦ ground arith
        ],
  )

  -- Where the codec of a job's own type decodes what it has encoded: where the catalogue of a worker is built at all, a
  -- job of one of its types that is encoded as a message is handled by that worker as the same job.
  pub receive-encode :
      (types : List (JobType Policy Codec Decoder)) (c : Catalogue Policy Codec Decoder)
      → new_resolver as_decoder is_space json_codec types ≡ ok c
      → All (Received c) types
  receive-encode types c e =
      All-map (Resolved as_decoder is_space json_codec c) (Received c) (Resolved-Received c) types
        (new_resolver-Resolved as_decoder is_space json_codec types c e)
