-- ===== src/Grpc/Connection.antt =====
-- pkg/grpcutil/client.go, Dial: a connection without interceptors, so that a call is tried once.
use micromart.Prelude.Exec.{err, Exec}
use micromart.Grpc.Status.{Code, unavailable, deadline_exceeded, cancelled}

-- How gRPC lets a call fail that the service has not answered: it is not reached, the deadline of the
-- request's context has passed, or the client has gone away.
pub data Failure : Type 0 where
  unreachable timed_out gone_away : Failure

abbrev pub failure_code : Failure → Code
failure_code unreachable = unavailable
failure_code timed_out = deadline_exceeded
failure_code gone_away = cancelled

-- What becomes of a call: the service's answer comes back, or the call fails before the service has
-- carried it out, or after that.
pub data Fate : Type 0 where
  delivered : Fate
  request_lost answer_lost : Failure → Fate

module _ {S A : Type 0} where
  -- A call of a connection that Dial has returned.
  abbrev pub dial : Fate → Exec S Code A → Exec S Code A
  dial delivered handler s = handler s
  dial (request_lost why) handler s = (err (failure_code why), s)
  dial (answer_lost why) handler s = (err (failure_code why), (handler s).1)
