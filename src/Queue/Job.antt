-- ===== src/Queue/Job.antt =====
-- app/infrastructure/queue/job.py: what a job type declares, the checks of the declaration, and the
-- encoding of a job.
use fast_api_scaff.Prelude.{
  ℕ, Bool, true, false, not, ◌||◌, ◌&&◌, Option, none, some, List, [], ◌∷◌, ◌++◌, length, all, any,
  ltb, leb, ◌==◌, if◌then◌else◌, Text, codes, is_empty, text_eq, strip_prefix, Result, ok, err,
  and_then,
}
use fast_api_scaff.Users.Unicode.{strip}

pub data QueueError : Type 0 where
  queue_error queue_configuration_error invalid_message_error type_error : QueueError
  unsupported_job_version : QueueError

abbrev is_alphanumeric : ℕ → Bool
is_alphanumeric c =
    (leb b'A' c && leb c b'Z') || ((leb b'a' c && leb c b'z') || (leb b'0' c && leb c b'9'))

abbrev is_reference_char : ℕ → Bool
is_reference_char c = is_alphanumeric c || (c == b'_' || (c == b'.' || (c == b':' || c == b'-')))

-- `_JOB_REFERENCE_PATTERN`, matched against the whole text.
unfoldable pub matches_reference : Text → Bool
matches_reference [] = false
matches_reference (c ∷ text) =
    is_alphanumeric c && (all is_reference_char text && leb (length text) 499)

-- `_validate_job_reference`
unfoldable pub validate_job_reference : Text → Result QueueError Text
unfolding matches_reference
validate_job_reference value =
    if matches_reference value then ok value else err queue_configuration_error

-- `in` for texts
unfoldable pub contains : Text → Text → Bool
contains part [] = is_empty part
contains part (c ∷ text) =
    let rest = contains part text in
    elim (strip_prefix part (c ∷ text)) [ none ↦ rest | some _ ↦ true ]

-- What the class of a job declares. A class is its number, and `none` for the codec is the JSON codec.
pub record JobType (Policy Codec Decoder : Type 0) : Type 0 where
  pub job_type : ℕ
  pub is_queue_job : Bool
  pub is_abstract : Bool
  pub module_name : Text
  pub qualified_name : Text
  pub reference : Option Text
  pub legacy_references : List Text
  pub version : ℕ
  pub policy : Policy
  pub codec : Option Codec
  pub legacy_decoders : List (ℕ × Decoder)

pub record JobDescriptor (Policy Codec Decoder : Type 0) : Type 0 where
  pub reference : Text
  pub legacy_references : List Text
  pub version : ℕ
  pub job_type : ℕ
  pub codec : Codec
  pub legacy_decoders : List (ℕ × Decoder)
  pub policy : Policy

pub record EncodedJob (Payload : Type 0) : Type 0 where
  pub job_type : Text
  pub version : ℕ
  pub payload : Payload

-- A key of a dict.
unfoldable pub find_decoder : {Decoder : Type 0} → ℕ → List (ℕ × Decoder) → Option Decoder
find_decoder version [] = none
find_decoder version ((v, decoder) ∷ decoders) =
    let rest = find_decoder version decoders in if version == v then some decoder else rest

abbrev configured : Option Text → Text → Result QueueError Text
configured none default = ok default
configured (some reference) default = validate_job_reference reference

module _ {Policy Codec Decoder : Type 0} (is_space : ℕ → Bool) where
  -- `job_type_path`
  unfoldable pub job_type_path : JobType Policy Codec Decoder → Result QueueError Text
  unfolding validate_job_reference contains
  job_type_path t =
      let module_name = strip is_space t.module_name in
      let qualified_name = strip is_space t.qualified_name in
      if is_empty module_name
        || (is_empty qualified_name || contains (codes "<locals>") qualified_name)
      then err queue_configuration_error
      else validate_job_reference (module_name ++ (codes ":" ++ qualified_name))

  -- `job_reference`
  unfoldable pub job_reference : JobType Policy Codec Decoder → Result QueueError Text
  unfolding job_type_path
  job_reference t = and_then (job_type_path t) (configured t.reference)

unfoldable pub validate_each : List Text → Result QueueError (List Text)
unfolding validate_job_reference
validate_each [] = ok []
validate_each (reference ∷ references) =
    and_then (validate_job_reference reference)
      (λ r. and_then (validate_each references) (λ rest. ok (r ∷ rest)))

abbrev pub has_duplicates : List Text → Bool
has_duplicates [] = false
has_duplicates (r ∷ references) = any (text_eq r) references || has_duplicates references

-- `_validate_legacy_references`
unfoldable pub validate_legacy_references : List Text → Text → Result QueueError (List Text)
unfolding validate_each
validate_legacy_references configured reference = and_then (validate_each configured) (λ legacy.
    if any (text_eq reference) legacy || has_duplicates legacy
    then err queue_configuration_error
    else ok legacy)

module _ {Decoder : Type 0} where
  abbrev versions_fit : ℕ → List (ℕ × Decoder) → Bool
  versions_fit version decoders =
      all (λ (entry : ℕ × Decoder). leb 1 entry.0 && ltb entry.0 version) decoders

-- `codec or JsonJobCodec(job_type)`
abbrev pub codec_of : {Codec : Type 0} → (ℕ → Codec) → Option Codec → ℕ → Codec
codec_of json_codec none job_type = json_codec job_type
codec_of json_codec (some codec) job_type = codec

module _ {Policy Codec Decoder : Type 0} (is_space : ℕ → Bool) (json_codec : ℕ → Codec) where
  -- `describe_job`. What a declaration has by its type here is not checked again.
  unfoldable pub describe_job :
      JobType Policy Codec Decoder → Result QueueError (JobDescriptor Policy Codec Decoder)
  unfolding job_reference validate_legacy_references
  describe_job t =
      if not t.is_queue_job || t.is_abstract
      then err queue_configuration_error
      else and_then (job_reference is_space t) (λ reference.
        and_then (validate_legacy_references t.legacy_references reference) (λ legacy.
          if ltb t.version 1 || not (versions_fit t.version t.legacy_decoders)
          then err queue_configuration_error
          else ok (record {
            reference = reference;
            legacy_references = legacy;
            version = t.version;
            job_type = t.job_type;
            codec = codec_of json_codec t.codec t.job_type;
            legacy_decoders = t.legacy_decoders;
            policy = t.policy;
          })))

abbrev supported : {Decoder : Type 0} → Option Decoder → Result QueueError Decoder
supported none = err unsupported_job_version
supported (some decoder) = ok decoder

module _ {Policy Codec Decoder : Type 0} (as_decoder : Codec → Decoder) where
  -- `JobDescriptor.decoder_for`, where the codec of the current version serves as its decoder.
  unfoldable pub decoder_for : JobDescriptor Policy Codec Decoder → ℕ → Result QueueError Decoder
  unfolding find_decoder
  decoder_for d version =
      if ltb version 1
      then err unsupported_job_version
      else if version == d.version
      then ok (as_decoder d.codec)
      else supported (find_decoder version d.legacy_decoders)

module _ {Policy Codec Decoder Job Payload : Type 0} (type_of : Job → ℕ)
    (encode_with : Codec → Job → Payload) where
  -- `JobDescriptor.encode`
  unfoldable pub encode :
      JobDescriptor Policy Codec Decoder → Job → Result QueueError (EncodedJob Payload)
  encode d job =
      if not (type_of job == d.job_type)
      then err type_error
      else ok (record {
        job_type = d.reference;
        version = d.version;
        payload = encode_with d.codec job;
      })
