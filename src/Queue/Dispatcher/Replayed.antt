-- ===== src/Queue/Dispatcher/Replayed.antt =====
-- What a replay of a failed job publishes.
use fast_api_scaff.Prelude.{
  ℕ, ◌≡◌, refl, sym, ◌∙◌, ap, Bool, Option, none, some, List, ◌∷◌, Text, ok, pure, ◌>>=◌, >>=-eq_ok,
  pure-eq_ok, arith,
}
use fast_api_scaff.DateTime.{DateTime}
use fast_api_scaff.Worker.Executor.{MessageEnvelope}
use fast_api_scaff.Worker.Failures.{FailedJobRecord, row_of}
use fast_api_scaff.Queue.Job.{QueueError}
use fast_api_scaff.Queue.Envelope.{Json, decode-encode}
use fast_api_scaff.Queue.Envelope
use fast_api_scaff.Queue.Dispatcher.{
  Publication, Broker, configured, Connections, ensure_open, resolve_name, get_backend, get,
  publish_envelope, replay, replay_record, replay_message, decoded_or_raise,
}
use fast_api_scaff.Queue.Dispatcher.Published.{Appends, publish_envelope-eq_ok, get-published}

module _ {W : Type 0} (json : Json) (max_bytes : ℕ) (connections : Connections)
    (create : Text → W → Bool × W) (publish : Publication → W → Bool × W) where
  decoded_or_raise-eq_ok :
      (o : Option MessageEnvelope) (message : MessageEnvelope) (s t : Broker W)
      → decoded_or_raise o s ≡ (ok message, t)
      → (o ≡ some message) × (t ≡ s)
  unfolding ◌>>=◌
  decoded_or_raise-eq_ok none message s t e = ground arith
  decoded_or_raise-eq_ok (some m) message s t e = ground arith

  configured-eq_ok :
      (name : Text) (queue : Option Text) (found : Text × Text) (s t : Broker W)
      → configured name queue s ≡ (ok found, t)
      → found.0 ≡ name
  unfolding ◌>>=◌
  configured-eq_ok name none found s t e = ground arith
  configured-eq_ok name (some queue) found s t e = ground arith

  -- A dispatcher of a named connection is one of that connection.
  get-name :
      (name : Text) (found : Text × Text) (s t : Broker W)
      → get json max_bytes connections create publish (some name) s ≡ (ok found, t)
      → found.0 ≡ name
  unfolding get resolve_name
  get-name name found s t e =
      let (other, u, resolved_, e2) =
        >>=-eq_ok (resolve_name json max_bytes connections create publish (some name)) _ s e in
      let (_, v, opened, e3) =
        >>=-eq_ok (ensure_open json max_bytes connections create publish) _ s resolved_ in
      let (_, w, created, e4) =
        >>=-eq_ok (get_backend json max_bytes connections create publish other.0) _ u e2 in
      ap (λ (f : Text × Text). f.0) (sym (pure-eq_ok other found w t e4).0)
      ∙ configured-eq_ok name _ other v u e3

  -- What a replay has left: the envelope of the failed job once more, in the connection and the queue
  -- where the job failed, and decoded with all that it had but the new identifier, the time, and the
  -- failure that it replays.
  pub record Replayed (failures : List FailedJobRecord) (failure_id id : ℕ) (now : DateTime)
      (s after : Broker W) : Type 0 where
    pub failed : FailedJobRecord
    pub original : MessageEnvelope
    pub raw : Text
    pub found : row_of failure_id failures ≡ some failed
    pub was : Envelope.decode json max_bytes failed.payload ≡ some original
    pub is :
        Envelope.decode json max_bytes raw
        ≡ some
            (record original { job_id = id; enqueued_at = now; replay_of = some failed.failure_id })
    pub published :
        after.published
        ≡ record { connection = failed.connection; queue = failed.queue; raw = raw } ∷ s.published

  Replayed-Appends :
      (failures : List FailedJobRecord) (failure_id new_id id : ℕ) (now : DateTime)
      (s t u v after : Broker W) (failed : FailedJobRecord) (message : MessageEnvelope)
      (dispatcher : Text × Text)
      → row_of failure_id failures ≡ some failed
      → (Envelope.decode json max_bytes failed.payload ≡ some message) × (t ≡ s)
      → u.published ≡ t.published
      → dispatcher.0 ≡ failed.connection
      → Appends json max_bytes connections create publish dispatcher
          (replay_message new_id now failed message)
          (some failed.queue)
          u
          v
      → pure {E = QueueError} new_id v ≡ (ok id, after)
      → Replayed failures failure_id id now s after
  Replayed-Appends failures failure_id new_id id now s t u v after failed message dispatcher found
        (was, same) kept named appends returned =
      let (new, last) = pure-eq_ok new_id id v after returned in
      record {
        failed = failed;
        original = message;
        raw = appends.raw;
        found = found;
        was = was;
        is = decode-encode json max_bytes _ appends.raw appends.encoded ∙ rw new refl;
        published = rw (← last) (appends.appended ∙ rw (named, kept, same) refl);
      }

  -- A replay of a failed job that returns has published exactly one message: its envelope once more,
  -- to the connection and the queue where it failed, under the returned identifier; a worker decodes it
  -- there with the type, the version, the payload and the correlation of the original.
  pub replay-Replayed :
      (new_id id : ℕ) (now : DateTime) (failures : List FailedJobRecord) (failure_id : ℕ)
      (s after : Broker W)
      → replay json max_bytes connections create publish new_id now failures failure_id s
        ≡ (ok id, after)
      → Replayed failures failure_id id now s after
  unfolding replay
  replay-Replayed new_id id now failures failure_id s after e =
      go (row_of failure_id failures) refl e
    where
      go :
          (row : Option FailedJobRecord)
          → row_of failure_id failures ≡ row
          → replay_record json max_bytes connections create publish new_id now row s
            ≡ (ok id, after)
          → Replayed failures failure_id id now s after
      go none found e = absurd (ground arith)
      go (some failed) found e =
          let (message, t, decoded, e2) =
            >>=-eq_ok (decoded_or_raise (Envelope.decode json max_bytes failed.payload)) _ s e in
          let (dispatcher, u, got, e3) =
            >>=-eq_ok (get json max_bytes connections create publish (some failed.connection)) _ t
              e2 in
          let (_, v, sent, e4) =
            >>=-eq_ok
              (publish_envelope json max_bytes connections create publish dispatcher
                (replay_message new_id now failed message) (some failed.queue))
              _ u e3 in
          Replayed-Appends failures failure_id new_id id now s t u v after failed message dispatcher
            found (decoded_or_raise-eq_ok _ message s t decoded)
            (get-published json max_bytes connections create publish (some failed.connection)
              dispatcher t u got)
            (get-name failed.connection dispatcher t u got)
            (publish_envelope-eq_ok json max_bytes connections create publish dispatcher
              (replay_message new_id now failed message) (some failed.queue) u v sent)
            e4
