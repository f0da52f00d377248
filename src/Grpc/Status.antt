-- ===== src/Grpc/Status.antt =====
-- The status codes of google.golang.org/grpc/codes that an error can carry. The text of an error
-- is not modelled.
pub data Code : Type 0 where
  cancelled unknown invalid_argument deadline_exceeded already_exists permission_denied : Code
  resource_exhausted failed_precondition aborted out_of_range unimplemented internal : Code
  unavailable data_loss unauthenticated not_found : Code
