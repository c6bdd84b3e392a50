-- ===== src/Queue/Dispatcher.antt =====
-- app/infrastructure/queue/dispatcher.py and the names, the dispatch and the replay of manager.py. The
-- backends are a parameter: whether one can be had, and whether it confirms a publication.
pub mod Published
pub mod Replayed
pub mod Handled
use fast_api_scaff.Prelude.{
  ℕ, Bool, true, false, not, ◌||◌, ◌&&◌, Option, none, some, List, [], ◌∷◌, length, all, leb, ltb,
  ◌==◌, if◌then◌else◌, Text, codes, is_empty, text_eq, Result, ok, err, Action, pure, raise, lift,
  raise_if, modify, ◌>>=◌, ◌>>◌,
}
use fast_api_scaff.DateTime.{DateTime}
use fast_api_scaff.Worker.Executor.{MessageEnvelope}
use fast_api_scaff.Worker.Failures.{FailedJobRecord, row_of}
use fast_api_scaff.Queue.Job.{
  QueueError, queue_error, queue_configuration_error, invalid_message_error, JobType, EncodedJob,
  describe_job, encode,
}
use fast_api_scaff.Queue.Envelope.{Json}
use fast_api_scaff.Queue.Envelope

abbrev is_name_char : ℕ → Bool
is_name_char c =
    (leb b'A' c && leb c b'Z')
    || ((leb b'a' c && leb c b'z')
        || ((leb b'0' c && leb c b'9') || (c == b'.' || (c == b'_' || c == b'-'))))

-- `validate_queue_name` of app/config/queue.py
unfoldable pub is_queue_name : Text → Bool
is_queue_name name =
    not (is_empty name)
    && (leb (length name) 200
        && (not (text_eq name (codes ".") || text_eq name (codes "..")) && all is_name_char name))

pub record Publication : Type 0 where
  pub connection : Text
  pub queue : Text
  pub raw : Text

-- The manager's flag, what backends have confirmed, the last first, and the rest of the world.
pub record Broker (W : Type 0) : Type 0 where
  pub closed : Bool
  pub published : List Publication
  pub rest : W

-- The settings: the default connection, and the default queue of each connection.
pub record Connections : Type 0 where
  pub default : Option Text
  pub default_queues : List (Text × Text)

abbrev pub queue_of : Text → List (Text × Text) → Option Text
queue_of name [] = none
queue_of name ((other, queue) ∷ connections) =
    if text_eq name other then some queue else queue_of name connections

abbrev pub or_default : {A : Type 0} → Option A → Option A → Option A
or_default none default = default
or_default (some value) default = some value

abbrev pub or_else : Option Text → Text → Text
or_else none default = default
or_else (some value) default = value

abbrev pub encoded_or_raise : {W : Type 0} → Option Text → Action QueueError (Broker W) Text
encoded_or_raise none = raise invalid_message_error
encoded_or_raise (some raw) = pure raw

abbrev pub message_for : ℕ → DateTime → Option Text → EncodedJob Text → MessageEnvelope
message_for new_id now correlation_id encoded = record {
  job_id = new_id;
  job_type = encoded.job_type;
  job_version = encoded.version;
  payload = encoded.payload;
  enqueued_at = now;
  correlation_id = correlation_id;
  replay_of = none;
}

abbrev pub decoded_or_raise :
    {W : Type 0} → Option MessageEnvelope → Action QueueError (Broker W) MessageEnvelope
decoded_or_raise none = raise invalid_message_error
decoded_or_raise (some message) = pure message

abbrev pub replay_message : ℕ → DateTime → FailedJobRecord → MessageEnvelope → MessageEnvelope
replay_message new_id now record_ message = record message {
  job_id = new_id;
  enqueued_at = now;
  replay_of = some record_.failure_id;
}

abbrev pub configured :
    {W : Type 0} → Text → Option Text → Action QueueError (Broker W) (Text × Text)
configured name none = raise queue_configuration_error
configured name (some queue) = pure (name, queue)

module _ {W : Type 0} (json : Json) (max_bytes : ℕ) (connections : Connections)
    (create : Text → W → Bool × W) (publish : Publication → W → Bool × W) where
  abbrev pub Managed : Type 0 → Type 0
  Managed A = Action QueueError (Broker W) A

  -- `_ensure_open`
  unfoldable pub ensure_open : Managed Unit
  ensure_open s = (if s.closed then err queue_error else ok tt, s)

  abbrev pub resolved : Option Text → Managed (Text × Text)
  resolved none = raise queue_configuration_error
  resolved (some name) = configured name (queue_of name connections.default_queues)

  -- `resolve_name`, with the default queue of the connection.
  unfoldable pub resolve_name : Option Text → Managed (Text × Text)
  unfolding ensure_open ◌>>=◌
  resolve_name name = ensure_open >> resolved (or_default name connections.default)

  -- `_get_backend`
  unfoldable pub get_backend : Text → Managed Unit
  get_backend name s =
      let (created, after) = create name s.rest in
      (if created then ok tt else err queue_error, record s { rest = after })

  -- `get`: the dispatcher is its connection and its default queue.
  unfoldable pub get : Option Text → Managed (Text × Text)
  unfolding resolve_name get_backend ◌>>=◌
  get name = do found ← resolve_name name; get_backend found.0; pure found

  -- The call of the publisher, under its time limit.
  unfoldable pub send : Publication → Managed Unit
  send publication s =
      let (confirmed, after) = publish publication s.rest in
      if confirmed
      then (ok tt, record s { published = publication ∷ s.published; rest = after })
      else (err queue_error, record s { rest = after })

  -- `publish_envelope`
  unfoldable pub publish_envelope : Text × Text → MessageEnvelope → Option Text → Managed Unit
  unfolding ensure_open send is_queue_name ◌>>=◌
  publish_envelope dispatcher message queue = do
    ensure_open
    raise_if (not (is_queue_name (or_else queue dispatcher.1))) queue_error
    raw ← encoded_or_raise (Envelope.encode json max_bytes message)
    send (record { connection = dispatcher.0; queue = or_else queue dispatcher.1; raw = raw })

  module _ {Policy Codec Decoder Job : Type 0} (is_space : ℕ → Bool) (json_codec : ℕ → Codec)
      (class_of : Job → JobType Policy Codec Decoder) (encode_with : Codec → Job → Text) where
    -- `encode_job`
    unfoldable pub encode_job : Job → Managed (EncodedJob Text)
    unfolding ◌>>=◌
    encode_job job = do
      d ← lift (describe_job is_space json_codec (class_of job))
      lift (encode (λ j. (class_of j).job_type) encode_with d job)

    -- `QueueManager.dispatch`; `current` is the correlation identifier of the running host.
    unfoldable pub dispatch :
        ℕ → DateTime → Option Text → Job → Option Text → Option Text → Option Text → Managed ℕ
    unfolding get encode_job publish_envelope ◌>>=◌
    dispatch new_id now current job connection queue correlation_id = do
      dispatcher ← get connection
      encoded ← encode_job job
      publish_envelope dispatcher
          (message_for new_id now (or_default correlation_id current) encoded) queue
      pure new_id

  abbrev pub replay_record : ℕ → DateTime → Option FailedJobRecord → Managed ℕ
  replay_record new_id now none = raise queue_error
  replay_record new_id now (some failed) = do
    message ← decoded_or_raise (Envelope.decode json max_bytes failed.payload)
    dispatcher ← get (some failed.connection)
    publish_envelope dispatcher (replay_message new_id now failed message) (some failed.queue)
    pure new_id

  -- `replay`, on the table of failed jobs.
  unfoldable pub replay : ℕ → DateTime → List FailedJobRecord → ℕ → Managed ℕ
  unfolding get publish_envelope ◌>>=◌
  replay new_id now failures failure_id = replay_record new_id now (row_of failure_id failures)
