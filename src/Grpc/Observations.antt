-- ===== src/Grpc/Observations.antt =====
-- What a client of a gRPC server sees of a call, and what is observed of it.
use micromart.Prelude.{String, ◌≡◌, refl, Option, none, some, List, [], ◌∷◌, ◌++◌, sym, append-nil}
use micromart.Prelude.Exec.{Result, err}
use micromart.Grpc.Status.{Code, internal}
use micromart.Grpc.Interceptors.{
  Ended, answered, panicked, UnaryHandler, Observed, LogLine, call_ended, handler_panic, code_of,
  logged, measured, traced, recovered, logging_unary_interceptor, recovery_unary_interceptor,
  tracing_unary_interceptor, metrics_unary_interceptor, new_server_with_metrics,
}

-- A panic is an internal error to the client.
abbrev pub seen : {A : Type 0} → Ended A → Result Code A
seen (answered r) = r
seen panicked = err internal

abbrev pub line_of : {A : Type 0} → String → Ended A → LogLine
line_of method (answered r) = call_ended method (code_of r)
line_of method panicked = handler_panic method

abbrev pub span_of : {A : Type 0} → Ended A → Option (Option Code)
span_of (answered r) = some (code_of r)
span_of panicked = none

-- A call that panicked is not counted.
abbrev pub count_of : {A : Type 0} → String → Ended A → List (String × Option Code)
count_of method (answered r) = (method, code_of r) ∷ []
count_of method panicked = []

module _ {S A : Type 0} (method : String) where
  chain_lem :
      (x : Ended A) (s : Observed S)
      → recovered method (traced method (measured method (logged method (x, s)))) ≡ (
        answered (seen x),
        record s {
          log = s.log ++ line_of method x ∷ [];
          counted = s.counted ++ count_of method x;
          spans = s.spans ++ (method, span_of x) ∷ [];
        },
      )
  chain_lem (answered r) s = refl
  chain_lem panicked s = λ i. (
    answered (err internal),
    record s {
      log = s.log ++ handler_panic method ∷ [];
      counted = sym (append-nil s.counted) i;
      spans = s.spans ++ (method, none) ∷ [];
    },
  )

  -- A server with metrics lets no panic out: the client gets the answer of the handler, or an
  -- internal error in place of a panic. Of every call there is one line in the log and one ended
  -- span; it is counted in the metrics if it did not panic; and the service changes as the handler
  -- has changed it.
  pub new_server_with_metrics-eq :
      (handler : UnaryHandler S A) (s : Observed S)
      → let (x, t) = handler s.service in
        new_server_with_metrics method handler s ≡ (
          answered (seen x),
          record s {
            service = t;
            log = s.log ++ line_of method x ∷ [];
            counted = s.counted ++ count_of method x;
            spans = s.spans ++ (method, span_of x) ∷ [];
          },
        )
  unfolding new_server_with_metrics logging_unary_interceptor recovery_unary_interceptor
      tracing_unary_interceptor metrics_unary_interceptor
  new_server_with_metrics-eq handler s =
      let (x, t) = handler s.service in chain_lem x (record s { service = t })
