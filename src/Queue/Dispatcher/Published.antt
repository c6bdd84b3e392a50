-- ===== src/Queue/Dispatcher/Published.antt =====
-- What the manager publishes.
use fast_api_scaff.Prelude.{
  ℕ, ◌≡◌, refl, sym, ◌∙◌, ap, Bool, Option, none, some, List, ◌∷◌, Text, Result, ok, ◌>>=◌, arith,
  Option-cases, inl, inr,
}
use fast_api_scaff.Prelude.Rules.{Keeps, Keeps-raise, Keeps-pure, keeps_rules}
use fast_api_scaff.Worker.Executor.{MessageEnvelope}
use fast_api_scaff.Queue.Job.{QueueError, queue_configuration_error}
use fast_api_scaff.Queue.Envelope.{Json, decode-encode}
use fast_api_scaff.Queue.Envelope
use fast_api_scaff.Queue.Dispatcher.{
  Publication, Broker, configured, resolved, Connections, ensure_open, resolve_name, get_backend,
  get, send, publish_envelope, or_else,
}

module _ {W : Type 0} (json : Json) (max_bytes : ℕ) (connections : Connections)
    (create : Text → W → Bool × W) (publish : Publication → W → Bool × W) where
  -- What was published before is what is published.
  pub record Same (published : List Publication) (s : Broker W) : Type 0 where
    pub at : s.published ≡ published

  Same-configured :
      (published : List Publication) (name : Text) (queue : Option Text)
      → Keeps (Same published) (configured name queue)
  Same-configured published name none = Keeps-raise queue_configuration_error
  Same-configured published name (some queue) = Keeps-pure (name, queue)

  Same-resolved :
      (published : List Publication) (name : Option Text)
      → Keeps (Same published) (resolved json max_bytes connections create publish name)
  Same-resolved published none = Keeps-raise queue_configuration_error
  Same-resolved published (some name) = Same-configured published name _

  Same-ensure_open :
      (published : List Publication)
      → Keeps (Same published) (ensure_open json max_bytes connections create publish)
  unfolding ensure_open
  Same-ensure_open published = record { at = λ s h. h }

  Same-get_backend :
      (published : List Publication) (name : Text)
      → Keeps (Same published) (get_backend json max_bytes connections create publish name)
  unfolding get_backend
  Same-get_backend published name = record { at = λ s h. record { at = h.at } }

  -- Taking a dispatcher publishes nothing.
  Same-get :
      (published : List Publication) (name : Option Text)
      → Keeps (Same published) (get json max_bytes connections create publish name)
  unfolding get resolve_name
  Same-get published name = search (keeps_rules, Same-ensure_open, Same-get_backend, Same-resolved)

  -- The one message that a publication of an envelope appends.
  pub record Appends (dispatcher : Text × Text) (message : MessageEnvelope) (queue : Option Text)
      (s after : Broker W) : Type 0 where
    pub raw : Text
    pub encoded : Envelope.encode json max_bytes message ≡ some raw
    pub appended :
        after.published
        ≡ record { connection = dispatcher.0; queue = or_else queue dispatcher.1; raw = raw }
          ∷ s.published

  pub publish_envelope-eq_ok :
      (dispatcher : Text × Text) (message : MessageEnvelope) (queue : Option Text)
      (s after : Broker W)
      → publish_envelope json max_bytes connections create publish dispatcher message queue s
        ≡ (ok tt, after)
      → Appends dispatcher message queue s after
  unfolding publish_envelope ensure_open send ◌>>=◌
  publish_envelope-eq_ok dispatcher message queue s after e =
      elim (Option-cases (Envelope.encode json max_bytes message)) [
        | inl n ↦ ground arith
        | inr (raw, encoded) ↦ record { raw = raw; encoded = encoded; appended = ground arith }
      ]

  pub get-published :
      (name : Option Text) (found : Text × Text) (s t : Broker W)
      → get json max_bytes connections create publish name s ≡ (ok found, t)
      → t.published ≡ s.published
  get-published name found s t e =
      let same = (Same-get s.published name).at s (record { at = refl }) in
      ap (λ (p : Result QueueError (Text × Text) × Broker W). p.1.published) (sym e) ∙ same.at
