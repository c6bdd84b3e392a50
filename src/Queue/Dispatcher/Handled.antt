-- ===== src/Queue/Dispatcher/Handled.antt =====
-- A job from its dispatch to its handler.
use fast_api_scaff.Prelude.{
  ℕ, ◌≡◌, sym, ◌∙◌, ap, Bool, Option, some, List, ◌∷◌, All, All-map, Text, Result, ok, lift, ◌>>=◌,
  >>=-eq_ok, pure-eq_ok, lift-eq_ok, ok_injective,
}
use fast_api_scaff.DateTime.{DateTime}
use fast_api_scaff.Worker.Executor.{MessageEnvelope}
use fast_api_scaff.Queue.Job.{JobType, JobDescriptor, EncodedJob, describe_job, encode}
use fast_api_scaff.Queue.Resolver.{Catalogue, new_resolver}
use fast_api_scaff.Queue.Binding.{DecodeFailure, receive, Received, receive-encode, own_codec}
use fast_api_scaff.Queue.Envelope.{Json, decode-encode}
use fast_api_scaff.Queue.Envelope
use fast_api_scaff.Queue.Dispatcher.{
  Publication, Broker, Connections, get, publish_envelope, or_default, or_else, encode_job,
  message_for, dispatch,
}
use fast_api_scaff.Queue.Dispatcher.Published.{publish_envelope-eq_ok, get-published}

-- What the executor hands to the binding of a message.
abbrev pub encoded_of : MessageEnvelope → EncodedJob Text
encoded_of message = record {
  job_type = message.job_type;
  version = message.job_version;
  payload = message.payload;
}

module _ {W V R : Type 0} (json : Json) (max_bytes : ℕ) (connections : Connections)
    (create : Text → W → Bool × W) (publish : Publication → W → Bool × W)
    {Policy Codec Decoder Job : Type 0} (is_space : ℕ → Bool) (json_codec : ℕ → Codec)
    (class_of : Job → JobType Policy Codec Decoder) (encode_with : Codec → Job → Text)
    (as_decoder : Codec → Decoder) (decode : Decoder → Text → Result DecodeFailure Job)
    (handle : Job → V → R × V)
    (decodes : (job : Job)
      → decode
          (as_decoder (own_codec json_codec (class_of job)))
          (encode_with (own_codec json_codec (class_of job)) job)
        ≡ ok job) where
  -- The state `after` has one message more than `s`, under the identifier, and a worker with the
  -- catalogue who decodes it runs the handler of the job, on the job.
  pub record Handled (c : Catalogue Policy Codec Decoder) (job : Job) (id : ℕ) (s after : Broker W)
      : Type 0 where
    pub publication : Publication
    pub message : MessageEnvelope
    pub published : after.published ≡ publication ∷ s.published
    pub decoded : Envelope.decode json max_bytes publication.raw ≡ some message
    pub identifier : message.job_id ≡ id
    pub handled :
        (w : V)
        → receive (λ j. (class_of j).job_type) decode handle c (encoded_of message) w
          ≡ (ok (handle job w).0, (handle job w).1)

  encode_job-eq_ok :
      (job : Job) (encoded : EncodedJob Text) (s t : Broker W)
      → encode_job json max_bytes connections create publish is_space json_codec class_of
          encode_with job s
        ≡ (ok encoded, t)
      → (d : JobDescriptor Policy Codec Decoder) × (describe_job is_space json_codec (class_of job)
          ≡ ok d)
        × (encode (λ j. (class_of j).job_type) encode_with d job ≡ ok encoded)
        × (t ≡ s)
  unfolding encode_job ◌>>=◌
  encode_job-eq_ok job encoded s t e =
      let (d, u, described, e2) =
        >>=-eq_ok (lift (describe_job is_space json_codec (class_of job))) _ s e in
      let (known, same) = lift-eq_ok _ d s u described in
      let (written, last) = lift-eq_ok _ encoded u t e2 in (d, known, written, sym (same ∙ last))

  Received-Handled :
      (c : Catalogue Policy Codec Decoder) (t : JobType Policy Codec Decoder) (job : Job)
      → Received class_of decode handle as_decoder is_space json_codec encode_with decodes c t
      → class_of job ≡ t
      → (new_id id : ℕ) (now : DateTime) (current connection queue correlation_id : Option Text)
        (s after : Broker W)
      → dispatch json max_bytes connections create publish is_space json_codec class_of encode_with
          new_id now current job connection queue correlation_id s
        ≡ (ok id, after)
      → Handled c job id s after
  unfolding dispatch
  Received-Handled c t job (d, described, receives) class new_id id now current connection queue
        correlation_id s after e =
      let (dispatcher, u, got, e2) =
        >>=-eq_ok (get json max_bytes connections create publish connection) _ s e in
      let (encoded, v, written, e3) =
        >>=-eq_ok
          (encode_job json max_bytes connections create publish is_space json_codec class_of
            encode_with job)
          _ u e2 in
      let message = message_for new_id now (or_default correlation_id current) encoded in
      let (_, w, sent, e4) =
        >>=-eq_ok
          (publish_envelope json max_bytes connections create publish dispatcher message queue) _ v
          e3 in
      let appends =
        publish_envelope-eq_ok json max_bytes connections create publish dispatcher message queue v
          w sent in
      let (d2, described2, encodes, same) = encode_job-eq_ok job encoded u v written in
      let (new, last) = pure-eq_ok new_id id w after e4 in
      let kept =
        get-published json max_bytes connections create publish connection dispatcher s u got in
      let publication : Publication = record {
        connection = dispatcher.0;
        queue = or_else queue dispatcher.1;
        raw = appends.raw;
      } in
      let descriptor : d2 ≡ d =
        ok_injective (sym described2 ∙ (ap (describe_job is_space json_codec) class ∙ described)) in
      record {
        publication = publication;
        message = message;
        published =
            ap (λ (b : Broker W). b.published) (sym last)
            ∙ (appends.appended
                ∙ ap (λ ps. publication ∷ ps) (ap (λ (b : Broker W). b.published) same ∙ kept));
        decoded = decode-encode json max_bytes message appends.raw appends.encoded;
        identifier = new;
        handled = λ state. receives job encoded state class (
            ap (λ x. encode (λ j. (class_of j).job_type) encode_with x job) (sym descriptor)
            ∙ encodes);
      }

  -- Every dispatch of a job of the type that returns.
  abbrev pub Dispatched : Catalogue Policy Codec Decoder → JobType Policy Codec Decoder → Type 0
  Dispatched c t =
      (job : Job)
      → class_of job ≡ t
      → (new_id id : ℕ) (now : DateTime) (current connection queue correlation_id : Option Text)
        (s after : Broker W)
      → dispatch json max_bytes connections create publish is_space json_codec class_of encode_with
          new_id now current job connection queue correlation_id s
        ≡ (ok id, after)
      → Handled c job id s after

  -- Where the codec of each job's own type decodes what it has encoded, and where the catalogue of a worker is built at
  -- all: when the dispatch of a job of one of its types returns, exactly one message has been
  -- published, under the returned identifier, and the worker that decodes it runs the handler of that
  -- job, on the same job.
  pub dispatch-Handled :
      (types : List (JobType Policy Codec Decoder)) (c : Catalogue Policy Codec Decoder)
      → new_resolver as_decoder is_space json_codec types ≡ ok c
      → All (Dispatched c) types
  dispatch-Handled types c e =
      All-map (Received class_of decode handle as_decoder is_space json_codec encode_with decodes c)
        (Dispatched c) (λ t received job. Received-Handled c t job received) types
        (receive-encode class_of decode handle as_decoder is_space json_codec encode_with decodes
          types c e)
