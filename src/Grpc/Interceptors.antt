-- ===== src/Grpc/Interceptors.antt =====
-- pkg/grpcutil/server.go: the interceptors of a gRPC server, and the chains that NewServer and
-- NewServerWithMetrics make of them. What they write to the log, the metrics and the tracer is kept
-- as lists, without durations.
use micromart.Prelude.{String, Option, none, some, List, [], ◌∷◌, ◌++◌}
use micromart.Prelude.Exec.{Result, ok, err}
use micromart.Grpc.Status.{Code, internal}

-- status.Code(err): no code is codes.OK.
abbrev pub code_of : {A : Type 0} → Result Code A → Option Code
code_of (ok a) = none
code_of (err e) = some e

-- A log line of a call that ended, or of a panic that was recovered.
pub data LogLine : Type 0 where
  call_ended : String → Option Code → LogLine
  handler_panic : String → LogLine

-- The service behind the interceptors, the log, the calls that the metrics have counted, and the
-- spans that have ended, with their status if one was set.
pub record Observed (S : Type 0) : Type 0 where
  pub service : S
  pub log : List LogLine
  pub counted : List (String × Option Code)
  pub spans : List (String × Option (Option Code))

-- How a handler ends.
pub data Ended (A : Type 0) : Type 0 where
  answered : Result Code A → Ended A
  panicked : Ended A

abbrev pub UnaryHandler : Type 0 → Type 0 → Type 0
UnaryHandler S A = S → Ended A × S

module _ {S A : Type 0} (method : String) where
  -- The handler itself, which knows nothing of the interceptors.
  abbrev pub served : UnaryHandler S A → UnaryHandler (Observed S) A
  served handler s = let (x, t) = handler s.service in (x, record s { service = t })

  abbrev pub logged : Ended A × Observed S → Ended A × Observed S
  logged (answered r, s) =
      (answered r, record s { log = s.log ++ call_ended method (code_of r) ∷ [] })
  logged (panicked, s) = (panicked, s)

  -- LoggingUnaryInterceptor
  unfoldable pub logging_unary_interceptor :
      UnaryHandler (Observed S) A → UnaryHandler (Observed S) A
  logging_unary_interceptor handler s = logged (handler s)

  abbrev pub recovered : Ended A × Observed S → Ended A × Observed S
  recovered (answered r, s) = (answered r, s)
  recovered (panicked, s) =
      (answered (err internal), record s { log = s.log ++ handler_panic method ∷ [] })

  -- RecoveryUnaryInterceptor
  unfoldable pub recovery_unary_interceptor :
      UnaryHandler (Observed S) A → UnaryHandler (Observed S) A
  recovery_unary_interceptor handler s = recovered (handler s)

  -- The deferred span.End() runs after a panic too.
  abbrev pub traced : Ended A × Observed S → Ended A × Observed S
  traced (answered r, s) =
      (answered r, record s { spans = s.spans ++ (method, some (code_of r)) ∷ [] })
  traced (panicked, s) = (panicked, record s { spans = s.spans ++ (method, none) ∷ [] })

  -- TracingUnaryInterceptor
  unfoldable pub tracing_unary_interceptor :
      UnaryHandler (Observed S) A → UnaryHandler (Observed S) A
  tracing_unary_interceptor handler s = traced (handler s)

  abbrev pub measured : Ended A × Observed S → Ended A × Observed S
  measured (answered r, s) =
      (answered r, record s { counted = s.counted ++ (method, code_of r) ∷ [] })
  measured (panicked, s) = (panicked, s)

  -- MetricsUnaryInterceptor
  unfoldable pub metrics_unary_interceptor :
      UnaryHandler (Observed S) A → UnaryHandler (Observed S) A
  metrics_unary_interceptor handler s = measured (handler s)

  -- NewServer
  unfoldable pub new_server : UnaryHandler S A → UnaryHandler (Observed S) A
  new_server handler =
      recovery_unary_interceptor
        (tracing_unary_interceptor (logging_unary_interceptor (served handler)))

  -- NewServerWithMetrics
  unfoldable pub new_server_with_metrics : UnaryHandler S A → UnaryHandler (Observed S) A
  new_server_with_metrics handler = recovery_unary_interceptor (
      tracing_unary_interceptor
        (metrics_unary_interceptor (logging_unary_interceptor (served handler))))
