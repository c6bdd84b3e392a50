-- ===== src/Queue/Envelope.antt =====
-- app/infrastructure/queue/codecs/envelope_json.py: the checks of a message envelope, its encoding as
-- a transport message and its decoding. JSON and pydantic are a parameter, and so is base64.
use fast_api_scaff.Prelude.{
  ℕ, ◌≡◌, Bool, true, not, ◌||◌, ◌&&◌, Option, none, some, length, ltb, leb, ◌==◌, if◌then◌else◌,
  Text, is_empty, arith,
}
use fast_api_scaff.DateTime.{DateTime}
use fast_api_scaff.Users.Unicode.{strip}
use fast_api_scaff.Worker.Executor.{MessageEnvelope}

-- `EnvelopeData`
pub record EnvelopeData : Type 0 where
  pub schema_version : ℕ
  pub job_id : ℕ
  pub job_type : Text
  pub job_version : ℕ
  pub payload : Text
  pub enqueued_at : DateTime
  pub correlation_id : Option Text
  pub replay_of : Option ℕ

-- `is_json` is `json.loads` that rejects constants. `dump` is the JSON text of the fields, and `parse`
-- reads it back, which is `none` on a text of another shape; the rules on the values are below.
pub record Json : Type 0 where
  pub is_json : Text → Bool
  pub is_space : ℕ → Bool
  pub dump : EnvelopeData → Text
  pub parse : Text → Option EnvelopeData
  pub b64encode : Text → Text
  pub b64decode : Text → Option Text
  pub parse-dump : (fields : EnvelopeData) → parse (dump fields) ≡ some fields
  pub b64decode-b64encode : (bytes : Text) → b64decode (b64encode bytes) ≡ some bytes

abbrev is_short : Option Text → Bool
is_short none = true
is_short (some correlation_id) = leb (length correlation_id) 200

module _ (json : Json) where
  -- The fields' constraints and the two validators of `EnvelopeData`.
  unfoldable pub is_valid : EnvelopeData → Bool
  is_valid fields =
      fields.schema_version == 2
      && ((leb 1 (length fields.job_type) && leb (length fields.job_type) 500)
          && (leb 1 fields.job_version
              && (is_short fields.correlation_id
                  && (not fields.enqueued_at.aware
                      && not (is_empty (strip json.is_space fields.job_type))))))

  module _ (max_bytes : ℕ) where
    abbrev data_of : MessageEnvelope → EnvelopeData
    data_of message = record {
      schema_version = 2;
      job_id = message.job_id;
      job_type = message.job_type;
      job_version = message.job_version;
      payload = json.b64encode message.payload;
      enqueued_at = message.enqueued_at;
      correlation_id = message.correlation_id;
      replay_of = message.replay_of;
    }

    -- `EnvelopeJsonCodec.encode`, where `none` is `InvalidMessageError`.
    unfoldable pub encode : MessageEnvelope → Option Text
    unfolding is_valid
    encode message =
        if not (json.is_json message.payload) || not (is_valid (data_of message))
        then none
        else (let raw = json.dump (data_of message) in
            if ltb max_bytes (length raw) then none else some raw)

    abbrev message_of : EnvelopeData → Text → MessageEnvelope
    message_of fields payload = record {
      job_id = fields.job_id;
      job_type = fields.job_type;
      job_version = fields.job_version;
      payload = payload;
      enqueued_at = fields.enqueued_at;
      correlation_id = fields.correlation_id;
      replay_of = fields.replay_of;
    }

    abbrev checked_payload : EnvelopeData → Option Text → Option MessageEnvelope
    checked_payload fields none = none
    checked_payload fields (some payload) =
        if json.is_json payload then some (message_of fields payload) else none

    abbrev checked : Option EnvelopeData → Option MessageEnvelope
    checked none = none
    checked (some fields) =
        if is_valid fields then checked_payload fields (json.b64decode fields.payload) else none

    -- `EnvelopeJsonCodec.decode`
    unfoldable pub decode : Text → Option MessageEnvelope
    unfolding is_valid
    decode raw = if ltb max_bytes (length raw) then none else checked (json.parse raw)

    -- Every envelope that can be encoded at all is decoded as the same envelope.
    pub decode-encode :
        (message : MessageEnvelope) (raw : Text)
        → encode message ≡ some raw
        → decode raw ≡ some message
    unfolding encode decode
    decode-encode message raw e =
        let fields = data_of message in
        let parsed = json.parse-dump fields in
        let decoded = json.b64decode-b64encode message.payload in ground (arith, parsed, decoded)
