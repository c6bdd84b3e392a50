-- ===== src/Http/Render/Hidden.antt =====
-- What a response to an exception shows of it (exceptions/handlers.py).
use fast_api_scaff.Prelude.{
  ℕ, ◌≡◌, ◌≤◌, ◌<◌, refl, Bool, true, false, leb, ltb, Option, none, some, ◌++◌, Text, Result, ok,
  err, arith, Bool-cases, Option-cases, inl, inr,
}
use fast_api_scaff.Http.Code.{ArgumentError, CodeDefinition, new_definition, three_digits, build}
use fast_api_scaff.Http.Error.{
  ErrorCode, validation_error, internal_error, definition, Data, Headers, HttpError, or_message,
  new_http_error,
}
use fast_api_scaff.Http.Render.{
  JsonResponse, HttpException, Exception, http_error, request_validation_error, http_exception,
  unexpected, Response, json, native, Context, http_error_codes, template, code_or_template,
  resolve_http_error_code, resolve_http_exception_content, error, render_error, handle_http_error,
  handle_http_exception, render_exception,
}

-- What a client is to see in a response of the project's form: an error status, the full code that
-- starts with that status and with the service's code, and from 500 on neither a message nor data
-- but the general ones.
pub record Hiding {D : Type 0} (service_code : Text) (n : ℕ) (payload : JsonResponse D)
    : Type 0 where
  pub status : 400 ≤ n
  pub failure : payload.success ≡ false
  pub local_code : Text
  pub full_code : payload.code ≡ three_digits n ++ (service_code ++ local_code)
  pub general :
      500 ≤ n → (payload.message ≡ (definition internal_error).message) × (payload.body ≡ none)

unfoldable pub Hidden : {D : Type 0} → Text → Result ArgumentError (Response D) → Type 0
Hidden service_code (err e) = ⊥
Hidden service_code (ok (native e)) = e.status_code < 400
Hidden service_code (ok (json n payload headers)) = Hiding service_code n payload

-- An exception that the application can raise: its `HttpError` has passed the class's own check, and
-- a status above 599 is no status of HTTP.
unfoldable pub Raised : {D : Type 0} → Exception D → Type 0
Raised (http_error e) = 400 ≤ e.code.status_code
Raised (request_validation_error es) = Unit
Raised (http_exception e) = e.status_code ≤ 599
Raised unexpected = Unit

new_http_error-Raised :
    {D : Type 0} (code : CodeDefinition) (message : Option Text) (body : Option (Data D))
    (headers : Option Headers) (e : HttpError D)
    → new_http_error code message body headers ≡ ok e
    → Raised (http_error e)
unfolding new_http_error Raised
new_http_error-Raised code message body headers e h = ground (arith, h)

http_error_codes-lem :
    (n : ℕ) (code : ErrorCode)
    → http_error_codes n ≡ some code
    → ((definition code).status_code ≡ n) × (500 ≤ n → code ≡ internal_error)
unfolding http_error_codes definition
http_error_codes-lem n code e = ground (arith, e)

module _ (is_digit : ℕ → Bool) (digits : (n : ℕ) → 48 ≤ n → n ≤ 57 → is_digit n ≡ true) where
  template-ok :
      (n : ℕ)
      → 400 ≤ n
      → n ≤ 599
      → new_definition is_digit (record (template n) { status_code = n })
        ≡ ok (record (template n) { status_code = n })
  unfolding template definition new_definition
  template-ok n h k = elim (Bool-cases (leb 500 n)) [
    | inl large ↦ ground (
      arith,
      large,
      h,
      k,
      digits 48 (omega arith) (omega arith),
      digits 49 (omega arith) (omega arith),
    )
    | inr small ↦ ground (
      arith,
      small,
      h,
      k,
      digits 48 (omega arith) (omega arith),
      digits 49 (omega arith) (omega arith),
    )
  ]

  -- The code that stands for a status.
  record Stands (n : ℕ) : Type 0 where
    code : CodeDefinition
    resolved : resolve_http_error_code is_digit n ≡ ok code
    same : code.status_code ≡ n
    general : 500 ≤ n → code.message ≡ (definition internal_error).message

  resolve_http_error_code-Stands : (n : ℕ) → 400 ≤ n → n ≤ 599 → Stands n
  unfolding resolve_http_error_code code_or_template http_error_codes template definition
  resolve_http_error_code-Stands n h k = elim (Option-cases (http_error_codes n)) [
    | inl no_code ↦
        let accepted = template-ok n h k in
        record {
          code = record (template n) { status_code = n };
          resolved = rw no_code accepted;
          same = refl;
          general = λ large. ground (arith, large);
        }
    | inr (code, e) ↦
        let (same, general) = http_error_codes-lem n code e in
        record {
          code = definition code;
          resolved = rw e refl;
          same = same;
          general = λ large. rw (general large) refl;
        }
  ]

module _ {D : Type 0} (is_digit : ℕ → Bool) (digits : (n : ℕ) → 48 ≤ n → n ≤ 57 → is_digit n ≡ true)
    (service_code : Text) (context : Context) where
  render_error-Hidden :
      (code : CodeDefinition) (message : Option Text) (body : Option (Data D))
      (headers : Option Headers)
      → 400 ≤ code.status_code
      → (500 ≤ code.status_code
          → (or_message message code ≡ (definition internal_error).message) × (body ≡ none))
      → Hidden service_code (render_error is_digit service_code context code message body headers)
  unfolding render_error error build Hidden
  render_error-Hidden code message body headers h general =
      elim (Bool-cases (ltb code.status_code 400)) [
        | inl below ↦ absurd (ground (arith, below, h))
        | inr enough ↦ rw enough (record {
          status = h;
          failure = refl;
          local_code = code.code;
          full_code = refl;
          general = general;
        })
      ]

  handle_http_error-Hidden :
      (e : HttpError D)
      → 400 ≤ e.code.status_code
      → Hidden service_code (handle_http_error is_digit service_code context e)
  unfolding handle_http_error definition or_message
  handle_http_error-Hidden e h = elim (Bool-cases (leb 500 e.code.status_code)) [
    | inl large ↦ rw large (
        render_error-Hidden (definition internal_error) none none none (omega arith)
          (λ large. (refl, refl)))
    | inr small ↦ rw small (
        render_error-Hidden e.code (some e.message) e.body e.headers h
          (λ large. absurd (ground (arith, small, large))))
  ]

  -- From 500 on nothing of the exception is kept.
  resolve_http_exception_content-none :
      (e : HttpException D) → 500 ≤ e.status_code → resolve_http_exception_content e ≡ (none, none)
  unfolding resolve_http_exception_content
  resolve_http_exception_content-none e large = ground (arith, large)

  handle_http_exception-Hidden :
      (e : HttpException D)
      → e.status_code ≤ 599
      → Hidden service_code (handle_http_exception is_digit service_code context e)
  unfolding handle_http_exception or_message Hidden
  handle_http_exception-Hidden e h = elim (Bool-cases (ltb e.status_code 400)) [
    | inl below ↦ rw below (ground (arith, below))
    | inr enough ↦
        let large : 400 ≤ e.status_code = ground (arith, enough) in
        let stands = resolve_http_error_code-Stands is_digit digits e.status_code large h in
        rw (enough, stands.resolved)
          (render_error-Hidden stands.code (resolve_http_exception_content e).0
            (resolve_http_exception_content e).1 e.headers (ground (arith, large, stands.same))
            (λ many.
              let many : 500 ≤ e.status_code = ground (arith, many, stands.same) in
              rw (resolve_http_exception_content-none e many) (stands.general many, refl)))
  ]

  -- Of an exception that the application can raise, a response comes of it. It is the framework's own
  -- for an `HTTPException` with a status below 400; any other has an error status, with which its full
  -- code starts, and from 500 on the general message and no data.
  pub render_exception-Hidden :
      (e : Exception D)
      → Raised e
      → Hidden service_code (render_exception is_digit service_code context e)
  unfolding render_exception Raised definition or_message
  render_exception-Hidden (http_error e) h = handle_http_error-Hidden e h
  render_exception-Hidden (request_validation_error es) h =
      render_error-Hidden (definition validation_error) none _ none (omega arith)
        (λ large. absurd (omega (arith, large)))
  render_exception-Hidden (http_exception e) h = handle_http_exception-Hidden e h
  render_exception-Hidden unexpected h =
      render_error-Hidden (definition internal_error) none none none (omega arith)
        (λ large. (refl, refl))
