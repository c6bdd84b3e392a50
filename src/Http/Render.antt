-- ===== src/Http/Render.antt =====
-- exceptions/handlers.py and shared/response/factories/json.py: the response to an exception.
pub mod Hidden
use fast_api_scaff.Prelude.{
  ℕ, ◌≡◌, ◌≤◌, ◌<◌, refl, Bool, true, false, ◌||◌, ◌&&◌, not, ◌==◌, leb, ltb, Option, none, some,
  List, ◌++◌, if◌then◌else◌, Text, Result, ok, err, and_then, arith, Bool-cases, Option-cases, inl,
  inr,
}
use fast_api_scaff.Http.Code.{
  ArgumentError, value_error, CodeDefinition, new_definition, three_digits, build,
}
use fast_api_scaff.Http.Error.{
  ErrorCode, bad_request, unauthorized, forbidden, route_not_found, method_not_allowed, conflict,
  validation_error, too_many_requests, internal_error, definition, Data, problems, detail, Headers,
  Problem, HttpError, or_message, new_http_error,
}

-- `JsonResponse`
pub record JsonResponse (D : Type 0) : Type 0 where
  pub code : Text
  pub success : Bool
  pub message : Text
  pub body : Option (Data D)
  pub request_id : Option Text

-- The `detail` of an `HTTPException`: a string, or another value.
pub data Detail (D : Type 0) : Type 0 where
  text : Text → Detail D
  value : D → Detail D

-- `HTTPException`
pub record HttpException (D : Type 0) : Type 0 where
  pub status_code : ℕ
  pub content : Detail D
  pub headers : Option Headers

-- What `render_exception` tells apart.
pub data Exception (D : Type 0) : Type 0 where
  http_error : HttpError D → Exception D
  request_validation_error : List (Problem D) → Exception D
  http_exception : HttpException D → Exception D
  unexpected : Exception D

-- A response of the project's form, or the one that the framework makes of an exception.
pub data Response (D : Type 0) : Type 0 where
  json : ℕ → JsonResponse D → Option Headers → Response D
  native : HttpException D → Response D

-- The context of a request, where there is one, and its ID.
abbrev pub Context : Type 0
Context = Option (Option Text)

-- `_resolve_request_id`
unfoldable pub resolve_request_id : Context → Option Text → Option Text
resolve_request_id context (some explicit) = some explicit
resolve_request_id none none = none
resolve_request_id (some request_id) none = request_id

-- `_resolve_http_error_code`, with the enumeration's table `_HTTP_ERROR_CODES`.
unfoldable pub http_error_codes : ℕ → Option ErrorCode
http_error_codes n =
    if n == 400
    then some bad_request
    else if n == 401
    then some unauthorized
    else if n == 403
    then some forbidden
    else if n == 404
    then some route_not_found
    else if n == 405
    then some method_not_allowed
    else if n == 409
    then some conflict
    else if n == 422
    then some validation_error
    else if n == 429
    then some too_many_requests
    else if n == 500
    then some internal_error
    else none

unfoldable pub template : ℕ → CodeDefinition
unfolding definition
template n = if leb 500 n then definition internal_error else definition bad_request

module _ (is_digit : ℕ → Bool) where
  unfoldable pub code_or_template : ℕ → Option ErrorCode → Result ArgumentError CodeDefinition
  unfolding definition new_definition template
  code_or_template n (some code) = ok (definition code)
  code_or_template n none = new_definition is_digit (record (template n) { status_code = n })

  unfoldable pub resolve_http_error_code : ℕ → Result ArgumentError CodeDefinition
  unfolding http_error_codes code_or_template
  resolve_http_error_code n = code_or_template n (http_error_codes n)

module _ {D : Type 0} where
  unfoldable pub detail_content : Detail D → Option Text × Option (Data D)
  detail_content (text t) = (some t, none)
  detail_content (value d) = (none, some (detail d))

  -- `_resolve_http_exception_content`
  unfoldable pub resolve_http_exception_content : HttpException D → Option Text × Option (Data D)
  unfolding detail_content
  resolve_http_exception_content e =
      if leb 500 e.status_code
      then (none, none)
      else if (e.status_code == 404) || (e.status_code == 405)
      then (none, none)
      else detail_content e.content

  module _ (is_digit : ℕ → Bool) (service_code : Text) (context : Context) where
    -- `JsonResponseFactory.error`
    unfoldable pub error :
        CodeDefinition
        → Option Text
        → Option (Data D)
        → Option Text
        → Result ArgumentError (JsonResponse D)
    unfolding build or_message resolve_request_id
    error code message body request_id =
        if ltb code.status_code 400
        then err value_error
        else ok (record {
          code = build service_code code;
          success = false;
          message = or_message message code;
          body = body;
          request_id = resolve_request_id context request_id;
        })

    -- `JsonResponseFactory.success`
    unfoldable pub success :
        D → CodeDefinition → Option Text → Option Text → Result ArgumentError (JsonResponse D)
    unfolding build or_message resolve_request_id
    success data_value code message request_id =
        if not (leb 200 code.status_code && ltb code.status_code 300)
        then err value_error
        else ok (record {
          code = build service_code code;
          success = true;
          message = or_message message code;
          body = some (detail data_value);
          request_id = resolve_request_id context request_id;
        })

    -- `_render_error`
    unfoldable pub render_error :
        CodeDefinition
        → Option Text
        → Option (Data D)
        → Option Headers
        → Result ArgumentError (Response D)
    unfolding error
    render_error code message body headers =
        and_then (error code message body none)
          (λ payload. ok (json code.status_code payload headers))

    -- `handle_http_error`
    unfoldable pub handle_http_error : HttpError D → Result ArgumentError (Response D)
    unfolding render_error definition
    handle_http_error e =
        if leb 500 e.code.status_code
        then render_error (definition internal_error) none none none
        else render_error e.code (some e.message) e.body e.headers

    -- `handle_http_exception`
    unfoldable pub handle_http_exception : HttpException D → Result ArgumentError (Response D)
    unfolding render_error resolve_http_error_code resolve_http_exception_content
    handle_http_exception e =
        if ltb e.status_code 400
        then ok (native e)
        else and_then (resolve_http_error_code is_digit e.status_code) (λ code.
          let (message, body) = resolve_http_exception_content e in
          render_error code message body e.headers)

    -- `render_exception`, with the handlers of a validation error and of an unexpected exception.
    unfoldable pub render_exception : Exception D → Result ArgumentError (Response D)
    unfolding handle_http_error handle_http_exception render_error definition
    render_exception (http_error e) = handle_http_error e
    render_exception (request_validation_error es) =
        render_error (definition validation_error) none (some (problems es)) none
    render_exception (http_exception e) = handle_http_exception e
    render_exception unexpected = render_error (definition internal_error) none none none
