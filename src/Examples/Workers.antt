-- ===== src/Examples/Workers.antt =====
-- A worker with two types of jobs, of which one was renamed, and a connection with one queue. A job is
-- its type and its payload, and the codec of a type makes jobs of that type only.
use fast_api_scaff.Prelude.{
  ℕ, ◌+◌, ◌≡◌, refl, Bool, true, false, not, ◌==◌, none, some, List, [], ◌∷◌, All, Text, codes,
  Result, ok,
}
use fast_api_scaff.Worker.Attempts.{retry_exhausted}
use fast_api_scaff.Worker.Failures.{FailedJobRecord}
use fast_api_scaff.Queue.Job.{JobType, JobDescriptor}
use fast_api_scaff.Queue.Resolver.{Entry, Catalogue, new_resolver}
use fast_api_scaff.Queue.Resolver.Resolved.{Resolved, new_resolver-Resolved}
use fast_api_scaff.Queue.Binding.{DecodeFailure, own_codec}
use fast_api_scaff.Queue.Dispatcher.{Publication, Broker, Connections, replay}
use fast_api_scaff.Queue.Dispatcher.Replayed.{Replayed, replay-Replayed}
use fast_api_scaff.Queue.Dispatcher.Handled.{Dispatched, dispatch-Handled}
use fast_api_scaff.Examples.{evaluation, at}
use fast_api_scaff.Examples.Queues.{json, letter_raw, is_blank, written}

-- A codec and a decoder are the number of their version, and policies are the number of tries.
abbrev mail : JobType ℕ ℕ ℕ
mail = record {
  job_type = 1;
  is_queue_job = true;
  is_abstract = false;
  module_name = codes "app.mail";
  qualified_name = codes "SendMail";
  reference = some (codes "mail.send");
  legacy_references = codes "app.old:SendMail" ∷ [];
  version = 2;
  policy = 3;
  codec = some 2;
  legacy_decoders = (1, 1) ∷ [];
}

abbrev note : JobType ℕ ℕ ℕ
note = record mail {
  job_type = 3;
  qualified_name = codes "Note";
  reference = some (codes "note");
  legacy_references = [];
  version = 1;
  codec = none;
  legacy_decoders = [];
}

abbrev described : JobDescriptor ℕ ℕ ℕ
described = record {
  reference = codes "mail.send";
  legacy_references = codes "app.old:SendMail" ∷ [];
  version = 2;
  job_type = 1;
  codec = 2;
  legacy_decoders = (1, 1) ∷ [];
  policy = 3;
}

abbrev same : ℕ → ℕ
same n = n

abbrev described_note : JobDescriptor ℕ ℕ ℕ
described_note = record {
  reference = codes "note";
  legacy_references = [];
  version = 1;
  job_type = 3;
  codec = 3;
  legacy_decoders = [];
  policy = 3;
}

abbrev bound : Text → ℕ → JobDescriptor ℕ ℕ ℕ → ℕ → Entry ℕ ℕ ℕ
bound reference version descriptor decoder = record {
  reference = reference;
  version = version;
  binding = record { descriptor = descriptor; decoder = decoder };
}

abbrev catalogue : Catalogue ℕ ℕ ℕ
catalogue = record {
  references = codes "note" ∷ codes "app.old:SendMail" ∷ codes "mail.send" ∷ [];
  bindings =
      bound (codes "note") 1 described_note 3
      ∷ bound (codes "app.old:SendMail") 1 described 1
      ∷ bound (codes "app.old:SendMail") 2 described 2
      ∷ bound (codes "mail.send") 1 described 1
      ∷ bound (codes "mail.send") 2 described 2
      ∷ [];
  descriptors = described ∷ described_note ∷ [];
}

catalogue_run : new_resolver same is_blank same (mail ∷ note ∷ []) ≡ ok catalogue
unfolding evaluation
catalogue_run = refl

new_resolver-Resolved_example : All (Resolved same is_blank same catalogue) (mail ∷ note ∷ [])
new_resolver-Resolved_example =
    new_resolver-Resolved same is_blank same (mail ∷ note ∷ []) catalogue catalogue_run

abbrev connections : Connections
connections = record {
  default = some (codes "main");
  default_queues = (codes "main", codes "default") ∷ [];
}

abbrev create : Text → ℕ → Bool × ℕ
create name w = (true, w)

abbrev publish : Publication → ℕ → Bool × ℕ
publish publication w = (true, w + 1)

-- Whether it is a mail, and the payload.
abbrev Letter : Type 0
Letter = Bool × Text

abbrev class_of : Letter → JobType ℕ ℕ ℕ
class_of (true, payload) = mail
class_of (false, payload) = note

abbrev payload_of : ℕ → Letter → Text
payload_of codec (is_mail, payload) = payload

abbrev decode_payload : ℕ → Text → Result DecodeFailure Letter
decode_payload decoder payload = ok (not (decoder == 3), payload)

decodes :
    (job : Letter)
    → decode_payload
        (own_codec same (class_of job))
        (payload_of (own_codec same (class_of job)) job)
      ≡ ok job
decodes (true, payload) = refl
decodes (false, payload) = refl

abbrev handle : Letter → List Letter → Bool × List Letter
handle job handled = (true, job ∷ handled)

dispatch-Handled_example :
    All
      (Dispatched json 1000 connections create publish is_blank same class_of payload_of same
        decode_payload handle decodes catalogue)
      (mail ∷ note ∷ [])
dispatch-Handled_example =
    dispatch-Handled json 1000 connections create publish is_blank same class_of payload_of same
      decode_payload handle decodes (mail ∷ note ∷ []) catalogue catalogue_run

abbrev failed : FailedJobRecord
failed = record {
  failure_id = 4;
  payload = letter_raw;
  connection = codes "main";
  queue = codes "default";
  failed_at = at 20;
  attempts = 3;
  reason = retry_exhausted;
  job_id = some 5;
  details = none;
}

abbrev before : Broker ℕ
before = record { closed = false; published = []; rest = 0 }

abbrev after : Broker ℕ
after = record {
  closed = false;
  published =
      record {
        connection = codes "main";
        queue = codes "default";
        raw = written (record {
          schema_version = 2;
          job_id = 6;
          job_type = codes "mail.send";
          job_version = 2;
          payload = codes "{}";
          enqueued_at = at 30;
          correlation_id = some (codes "trace");
          replay_of = some 4;
        });
      }
      ∷ [];
  rest = 1;
}

replay_run :
    replay json 1000 connections create publish 6 (at 30) (failed ∷ []) 4 before ≡ (ok 6, after)
unfolding evaluation
replay_run = refl

replay-Replayed_example :
    Replayed json 1000 connections create publish (failed ∷ []) 4 6 (at 30) before after
replay-Replayed_example =
    replay-Replayed json 1000 connections create publish 6 6 (at 30) (failed ∷ []) 4 before after
      replay_run
