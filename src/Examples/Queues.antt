-- ===== src/Examples/Queues.antt =====
-- A transport format of numbers, in which a text ends in 0 and has its characters one higher, and an
-- envelope.
use fast_api_scaff.Prelude.{
  ℕ, zero, suc, ◌≡◌, refl, ap, Bool, true, false, Option, none, some, [], ◌∷◌, Text, codes,
  if◌then◌else◌, ◌==◌,
}
use fast_api_scaff.DateTime.{DateTime}
use fast_api_scaff.Worker.Executor.{MessageEnvelope}
use fast_api_scaff.Queue.Envelope.{Json, EnvelopeData, decode-encode}
use fast_api_scaff.Queue.Envelope
use fast_api_scaff.Examples.{evaluation, at}

abbrev put_text : Text → Text → Text
put_text [] rest = 0 ∷ rest
put_text (c ∷ text) rest = suc c ∷ put_text text rest

abbrev first_char : ℕ → Option (Text × Text) → Option (Text × Text)
first_char c none = none
first_char c (some (text, rest)) = some (c ∷ text, rest)

abbrev get_text : Text → Option (Text × Text)
get_text [] = none
get_text (zero ∷ rest) = some ([], rest)
get_text (suc c ∷ rest) = first_char c (get_text rest)

get_text-put_text : (text rest : Text) → get_text (put_text text rest) ≡ some (text, rest)
get_text-put_text [] rest = refl
get_text-put_text (c ∷ text) rest = ap (first_char c) (get_text-put_text text rest)

abbrev put_number : Option ℕ → Text
put_number none = []
put_number (some n) = n ∷ []

abbrev get_number : Text → Option ℕ
get_number [] = none
get_number (n ∷ rest) = some n

abbrev put_option : Option Text → Text → Text
put_option none rest = 0 ∷ rest
put_option (some text) rest = 1 ∷ put_text text rest

abbrev some_text : Option (Text × Text) → Option (Option Text × Text)
some_text none = none
some_text (some (text, rest)) = some (some text, rest)

abbrev get_option : Text → Option (Option Text × Text)
get_option [] = none
get_option (n ∷ rest) = if n == 0 then some (none, rest) else some_text (get_text rest)

abbrev flag : Bool → ℕ
flag false = 0
flag true = 1

abbrev pub written : EnvelopeData → Text
written d =
    d.schema_version
    ∷ d.job_id
    ∷ d.job_version
    ∷ d.enqueued_at.ticks
    ∷ flag d.enqueued_at.aware
    ∷ put_text d.job_type
        (put_text d.payload (put_option d.correlation_id (put_number d.replay_of)))

abbrev last_fields :
    ℕ → ℕ → ℕ → DateTime → Text → Text → Option (Option Text × Text) → Option EnvelopeData
last_fields schema id version time job_type payload none = none
last_fields schema id version time job_type payload (some (correlation_id, rest)) = some (record {
  schema_version = schema;
  job_id = id;
  job_type = job_type;
  job_version = version;
  payload = payload;
  enqueued_at = time;
  correlation_id = correlation_id;
  replay_of = get_number rest;
})

abbrev with_payload : ℕ → ℕ → ℕ → DateTime → Text → Option (Text × Text) → Option EnvelopeData
with_payload schema id version time job_type none = none
with_payload schema id version time job_type (some (payload, rest)) =
    last_fields schema id version time job_type payload (get_option rest)

abbrev with_type : ℕ → ℕ → ℕ → DateTime → Option (Text × Text) → Option EnvelopeData
with_type schema id version time none = none
with_type schema id version time (some (job_type, rest)) =
    with_payload schema id version time job_type (get_text rest)

abbrev read_back : Text → Option EnvelopeData
read_back (schema ∷ id ∷ version ∷ ticks ∷ aware ∷ rest) =
    with_type schema id version (record { ticks = ticks; aware = aware == 1 }) (get_text rest)
read_back _ = none

get_option-put_option :
    (o : Option Text) (rest : Text) → get_option (put_option o rest) ≡ some (o, rest)
get_option-put_option none rest = refl
get_option-put_option (some text) rest = ap some_text (get_text-put_text text rest)

get_number-put_number : (o : Option ℕ) → get_number (put_number o) ≡ o
get_number-put_number none = refl
get_number-put_number (some n) = refl

flag-is : (b : Bool) → (flag b == 1) ≡ b
flag-is true = refl
flag-is false = refl

pub read_back-written : (d : EnvelopeData) → read_back (written d) ≡ some d
read_back-written d = rw (get_text-put_text d.job_type _) (
    rw (get_text-put_text d.payload _) (
      rw (get_option-put_option d.correlation_id _)
        (rw (get_number-put_number d.replay_of) (rw (flag-is d.enqueued_at.aware) refl))))

abbrev pub is_blank : ℕ → Bool
is_blank c = c == 32

abbrev pub json : Json
json = record {
  is_json = λ t. true;
  is_space = is_blank;
  dump = written;
  parse = read_back;
  b64encode = λ t. t;
  b64decode = λ t. some t;
  parse-dump = read_back-written;
  b64decode-b64encode = λ t. refl;
}

abbrev pub letter : MessageEnvelope
letter = record {
  job_id = 5;
  job_type = codes "mail.send";
  job_version = 2;
  payload = codes "{}";
  enqueued_at = at 10;
  correlation_id = some (codes "trace");
  replay_of = none;
}

abbrev pub letter_raw : Text
letter_raw = written (record {
  schema_version = 2;
  job_id = 5;
  job_type = codes "mail.send";
  job_version = 2;
  payload = codes "{}";
  enqueued_at = at 10;
  correlation_id = some (codes "trace");
  replay_of = none;
})

letter_run : Envelope.encode json 1000 letter ≡ some letter_raw
unfolding evaluation
letter_run = refl

decode-encode_example : Envelope.decode json 1000 letter_raw ≡ some letter
decode-encode_example = decode-encode json 1000 letter letter_raw letter_run
