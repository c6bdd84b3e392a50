-- ===== src/Http/Error.antt =====
-- exceptions/error.py, the tables of codes, and the errors of the user context at the HTTP boundary
-- (controllers/v1/users/errors.py and controllers/v1/auth/errors.py).
use fast_api_scaff.Prelude.{
  ℕ, ltb, Option, none, some, List, [], ◌∷◌, ◌++◌, if◌then◌else◌, Text, codes, Result, ok, err,
}
use fast_api_scaff.Redis.Decimal.{decimal}
use fast_api_scaff.Users.Errors
use fast_api_scaff.Users.Errors.{Error, ConflictField, username, email}
use fast_api_scaff.Http.Code.{ArgumentError, value_error, type_error, CodeDefinition}

-- `ErrorCode`
pub data ErrorCode : Type 0 where
  bad_request : ErrorCode
  unauthorized : ErrorCode
  forbidden : ErrorCode
  route_not_found : ErrorCode
  resource_not_found : ErrorCode
  method_not_allowed : ErrorCode
  conflict : ErrorCode
  validation_error : ErrorCode
  too_many_requests : ErrorCode
  internal_error : ErrorCode
  service_unavailable : ErrorCode

unfoldable pub definition : ErrorCode → CodeDefinition
definition bad_request = record {
  code = codes "0101";
  message = codes "请求内容有误，请检查后重试";
  status_code = 400;
}
definition unauthorized = record {
  code = codes "0101";
  message = codes "未授权，请先登录";
  status_code = 401;
}
definition forbidden = record { code = codes "0101"; message = codes "无权限访问"; status_code = 403 }
definition route_not_found = record {
  code = codes "0101";
  message = codes "未定义路由";
  status_code = 404;
}
definition resource_not_found = record {
  code = codes "0102";
  message = codes "请求的数据不存在或已被删除";
  status_code = 404;
}
definition method_not_allowed = record {
  code = codes "0101";
  message = codes "该接口不支持当前请求方式";
  status_code = 405;
}
definition conflict = record {
  code = codes "0101";
  message = codes "当前数据状态已发生变化，请刷新后重试";
  status_code = 409;
}
definition validation_error = record {
  code = codes "0101";
  message = codes "请求参数有误，请检查后重试";
  status_code = 422;
}
definition too_many_requests = record {
  code = codes "0101";
  message = codes "操作过于频繁，请稍后重试";
  status_code = 429;
}
definition internal_error = record {
  code = codes "0101";
  message = codes "网络开小差了，请稍后重试";
  status_code = 500;
}
definition service_unavailable = record {
  code = codes "0101";
  message = codes "服务暂时不可用，请稍后重试";
  status_code = 503;
}

-- `UserErrorCode`
pub data UserErrorCode : Type 0 where
  user_not_found : UserErrorCode
  username_conflict : UserErrorCode
  email_conflict : UserErrorCode
  concurrent_update : UserErrorCode
  invalid_user_data : UserErrorCode

unfoldable pub user_definition : UserErrorCode → CodeDefinition
user_definition user_not_found = record {
  code = codes "1001";
  message = codes "用户不存在或已被删除";
  status_code = 404;
}
user_definition username_conflict = record {
  code = codes "1002";
  message = codes "用户名已存在";
  status_code = 409;
}
user_definition email_conflict = record {
  code = codes "1003";
  message = codes "邮箱已存在";
  status_code = 409;
}
user_definition concurrent_update = record {
  code = codes "1004";
  message = codes "用户已被并发修改，请重新读取后重试";
  status_code = 409;
}
user_definition invalid_user_data = record {
  code = codes "1005";
  message = codes "用户资料不符合要求";
  status_code = 422;
}

-- `AuthErrorCode`
pub data AuthErrorCode : Type 0 where
  invalid_credentials : AuthErrorCode
  login_temporarily_locked : AuthErrorCode

unfoldable pub auth_definition : AuthErrorCode → CodeDefinition
auth_definition invalid_credentials = record {
  code = codes "1101";
  message = codes "用户名或密码错误";
  status_code = 401;
}
auth_definition login_temporarily_locked = record {
  code = codes "1102";
  message = codes "登录失败次数过多，已临时锁定";
  status_code = 429;
}

-- The data of an error: a number of seconds or of attempts, the problems of a request as
-- `_build_validation_data` lists them, or what the framework has gathered.
pub record Problem (D : Type 0) : Type 0 where
  pub problem_type : Text
  pub location : List D
  pub message : Text

pub data Data (D : Type 0) : Type 0 where
  retry_after_seconds : ℕ → Data D
  remaining_attempts : ℕ → Data D
  problems : List (Problem D) → Data D
  detail : D → Data D

abbrev pub Headers : Type 0
Headers = List (Text × Text)

-- `HttpError`
pub record HttpError (D : Type 0) : Type 0 where
  pub code : CodeDefinition
  pub message : Text
  pub body : Option (Data D)
  pub headers : Option Headers

unfoldable pub or_message : Option Text → CodeDefinition → Text
or_message none code = code.message
or_message (some message) code = message

unfoldable pub conflict_code : ConflictField → UserErrorCode
conflict_code username = username_conflict
conflict_code email = email_conflict

abbrev no_store : Text × Text
no_store = (codes "Cache-Control", codes "no-store")

abbrev bearer : Option Headers
bearer = some ((codes "WWW-Authenticate", codes "Bearer") ∷ no_store ∷ [])

unfoldable pub credentials_message : Option ℕ → Text
unfolding auth_definition
credentials_message none = (auth_definition invalid_credentials).message
credentials_message (some n) =
    (auth_definition invalid_credentials).message ++ (codes "，还可尝试 " ++ (decimal n ++ codes " 次"))

module _ {D : Type 0} where
  -- `HttpError.__init__`
  unfoldable pub new_http_error :
      CodeDefinition
      → Option Text
      → Option (Data D)
      → Option Headers
      → Result ArgumentError (HttpError D)
  unfolding or_message
  new_http_error code message body headers =
      if ltb code.status_code 400
      then err value_error
      else ok (record {
        code = code;
        message = or_message message code;
        body = body;
        headers = headers;
      })

  -- `user_error_to_http`; the text of an `InvalidUserDataError` is an argument.
  unfoldable pub user_error_to_http : Text → Error → Result ArgumentError (HttpError D)
  unfolding new_http_error user_definition conflict_code
  user_error_to_http text (Errors.user_not_found id) =
      new_http_error (user_definition user_not_found) none none none
  user_error_to_http text (Errors.user_conflict field) =
      new_http_error (user_definition (conflict_code field)) none none none
  user_error_to_http text (Errors.concurrent_user_update id) =
      new_http_error (user_definition concurrent_update) none none none
  user_error_to_http text (Errors.invalid_user_data reason) =
      new_http_error (user_definition invalid_user_data) (some text) none none
  user_error_to_http text _ = err type_error

  unfoldable pub credentials_body : Option ℕ → Option (Data D)
  credentials_body none = none
  credentials_body (some n) = some (remaining_attempts n)

  -- `auth_error_to_http`
  unfoldable pub auth_error_to_http : Error → Result ArgumentError (HttpError D)
  unfolding new_http_error auth_definition definition credentials_message credentials_body
  auth_error_to_http (Errors.login_temporarily_locked n) =
      new_http_error (auth_definition login_temporarily_locked)
        (some (codes "登录失败次数过多，已临时锁定，请在 " ++ (decimal n ++ codes " 秒后重试")))
        (some (retry_after_seconds n)) (some ((codes "Retry-After", decimal n) ∷ no_store ∷ []))
  auth_error_to_http (Errors.invalid_credentials remaining) =
      new_http_error (auth_definition invalid_credentials) (some (credentials_message remaining))
        (credentials_body remaining) bearer
  auth_error_to_http Errors.authentication_required =
      new_http_error (definition unauthorized) none none bearer
  auth_error_to_http _ = err type_error
