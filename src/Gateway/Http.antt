-- ===== src/Gateway/Http.antt =====
-- services/gateway/helper.go and common_dto.go, and what the handlers read of a request. The text
-- of an error is left out, and so are the headers.
use micromart.Prelude.{ℕ, String, Option, none, some, List, if◌then◌else◌}
use micromart.Prelude.Int.{ℤ, pos, wrap32}
use micromart.Prelude.Text.{is_empty}
use micromart.Prelude.Ascii.{codes}
use micromart.Prelude.Atoi.{atoi}
use micromart.Prelude.Exec.{Result, ok, err, Exec}
use micromart.Order.Messages.{StatusMessage}
use micromart.Grpc.Status.{
  Code, invalid_argument, not_found, already_exists, failed_precondition, unauthenticated,
  permission_denied, resource_exhausted, unavailable, deadline_exceeded,
}

-- String() of the generated OrderStatus, and the format of a time.
pub record Texts : Type 0 where
  pub status_text : StatusMessage → String
  pub time_text : ℕ → String

-- What is written to the client: a status with data, or a status with an ErrorResponse.
pub data Reply (A : Type 0) : Type 0 where
  data_reply : ℕ → A → Reply A
  error_reply : ℕ → Reply A

abbrev pub status_of : {A : Type 0} → Reply A → ℕ
status_of (data_reply status a) = status
status_of (error_reply status) = status

-- grpcToHTTP
unfoldable pub grpc_to_http : Code → ℕ
grpc_to_http invalid_argument = 400
grpc_to_http not_found = 404
grpc_to_http already_exists = 409
grpc_to_http failed_precondition = 422
grpc_to_http unauthenticated = 401
grpc_to_http permission_denied = 403
grpc_to_http resource_exhausted = 429
grpc_to_http unavailable = 503
grpc_to_http deadline_exceeded = 504
grpc_to_http _ = 500

-- A handler answers every request, and so returns a reply and never an error.
abbrev pub Handler : Type 0 → Type 0 → Type 0
Handler S A = S → Reply A × S

abbrev pub reply_with : {A B : Type 0} → ℕ → (A → B) → Result Code A → Reply B
reply_with status render (ok a) = data_reply status (render a)
reply_with status render (err e) = error_reply (grpc_to_http e)

-- `resp, err := h.client.F(...)`, grpcErrorToHTTP or writeJSON
abbrev pub forward : {S A B : Type 0} → ℕ → (A → B) → Exec S Code A → Handler S B
forward status render call s = let (r, s') = call s in (reply_with status render r, s')

abbrev pub bad_request : {S A : Type 0} → Handler S A
bad_request s = (error_reply 400, s)

-- A body that json.Decode refused is `none`.
abbrev pub with_body : {S A B : Type 0} → Option A → (A → Handler S B) → Handler S B
with_body none handle = bad_request
with_body (some a) handle = handle a

-- PaginatedResponse
pub record PaginatedResponse (A : Type 0) : Type 0 where
  pub entries : List A  -- `data`
  pub next_page_token : String

abbrev pub or_default : Option ℤ → ℤ
or_default none = pos 20
or_default (some n) = wrap32 n

-- `pageSize := int32(20)`, and the query parameter page_size if it is a number.
unfoldable pub page_size_param : String → ℤ
page_size_param ps = if is_empty ps then pos 20 else or_default (atoi (codes ps))
