-- ===== src/Http.antt =====
-- What stands before and behind the controllers: OrganizationGuard
-- (src/common/guards/organization.guard.ts), the decorator OrganizationId
-- (src/common/decorators/organization.decorator.ts) and AllExceptionsFilter
-- (src/common/filters/http-exception.filter.ts). `validate` of the package uuid is a parameter.
pub mod Tenant
use complif_techinical_chall.Base.{
  ℕ, String, ◌==◌, Bool, true, false, Option, none, some, if◌then◌else◌, or_text,
}
use complif_techinical_chall.Common.Value.{Value, undefined, str, truthy}
use complif_techinical_chall.Common.Exec.{Result, ok, err, bad_request}

-- the header x-organization-id, and the property that the guard sets
pub record Request : Type 0 where
  pub header : Option String
  pub organization_id : Option String
  pub url : String
  pub method : String

abbrev checked : (String → Bool) → String → Request → Result Bool × Request
checked is_valid_uuid id request =
    if id == ""
    then (err (bad_request "Missing required header: x-organization-id"), request)
    else if is_valid_uuid id
    then (ok true, record request { organization_id = some id })
    else (err (bad_request "Invalid organization ID format. Expected UUID."), request)

guard_header : (String → Bool) → Option String → Request → Result Bool × Request
guard_header is_valid_uuid none request =
    (err (bad_request "Missing required header: x-organization-id"), request)
guard_header is_valid_uuid (some id) request = checked is_valid_uuid id request

-- canActivate, with the request as it leaves it
unfoldable pub can_activate : (String → Bool) → Request → Result Bool × Request
unfolding guard_header
can_activate is_valid_uuid request = guard_header is_valid_uuid request.header request

-- the decorator OrganizationId
unfoldable pub organization_of : Request → String
organization_of request = or_text request.header (or_text request.organization_id "")

-- what `exception.getResponse()` returns: a text, or an object by its `message` and `errors`
pub data ExceptionResponse : Type 0 where
  text : String → ExceptionResponse
  object : (message errors : Value) → ExceptionResponse

pub data Exception : Type 0 where
  http_exception : (status : ℕ) → ExceptionResponse → Exception
  plain_error : String → Exception
  not_an_error : Exception

pub record ErrorResponse : Type 0 where
  pub status_code : ℕ
  pub path : String
  pub method : String
  pub message : Value
  pub errors : Option Value

abbrev default_message : Value
default_message = str "Internal server error"

unfoldable pub status_of : Exception → ℕ
status_of (http_exception status response) = status
status_of _ = 500

unfoldable pub message_of : Exception → Value
unfolding truthy
message_of (http_exception status (text s)) = str s
message_of (http_exception status (object message errors)) =
    if truthy message then message else default_message
message_of (plain_error message) = str message
message_of not_an_error = default_message

unfoldable pub errors_of : Exception → Option Value
unfolding truthy
errors_of (http_exception status (object message errors)) =
    if truthy errors then some errors else none
errors_of _ = none

-- `catch` of AllExceptionsFilter; the time stamp is left out
unfoldable pub catch_exception : Exception → Request → ErrorResponse
unfolding status_of message_of errors_of
catch_exception exception request = record {
  status_code = status_of exception;
  path = request.url;
  method = request.method;
  message = message_of exception;
  errors = errors_of exception;
}
