-- ===== src/Gateway/Middlewares.antt =====
-- services/gateway/middlewares.go: the two middlewares that report on each request. How a handler
-- writes its response is kept as the status that the wrapped writer reports; durations are left out.
use micromart.Prelude.{ℕ, String, ◌≡◌, refl, ap, List, [], ◌∷◌, ◌++◌}
use micromart.Prelude.Text.{append}

pub record HttpRequest : Type 0 where
  pub method : String
  pub path : String

-- A handler returns with a status, or it panics.
pub data Served : Type 0 where
  responded : ℕ → Served
  panicked : Served

-- The service behind the middlewares, the spans that have ended, and the requests that were counted
-- with their labels.
pub record Watched (S : Type 0) : Type 0 where
  pub service : S
  pub spans : List String
  pub counted : List (String × String × ℕ)

abbrev pub Handler : Type 0 → Type 0
Handler S = HttpRequest → S → Served × S

-- What one request adds to the counted ones.
abbrev pub counts : HttpRequest → Served → List (String × String × ℕ)
counts r (responded status) = (r.method, r.path, status) ∷ []
counts r panicked = []

module _ {S : Type 0} where
  -- The router below, which knows nothing of the middlewares.
  abbrev pub routed : Handler S → Handler (Watched S)
  routed next r s = let (x, t) = next r s.service in (x, record s { service = t })

  -- The deferred span.End() runs after a panic too.
  abbrev pub end_span : String → Served × Watched S → Served × Watched S
  end_span name (x, s) = (x, record s { spans = name ∷ s.spans })

  -- TracingMiddleware
  unfoldable pub tracing_middleware : Handler (Watched S) → Handler (Watched S)
  tracing_middleware next r s = end_span (append r.method (append " " r.path)) (next r s)

  abbrev pub count_request : HttpRequest → Served × Watched S → Served × Watched S
  count_request r (responded status, s) =
      (responded status, record s { counted = (r.method, r.path, status) ∷ s.counted })
  count_request r (panicked, s) = (panicked, s)

  -- MetricsMiddleware
  unfoldable pub metrics_middleware : Handler (Watched S) → Handler (Watched S)
  metrics_middleware next r s = count_request r (next r s)

  -- As main.go puts them together.
  unfoldable pub watched : Handler S → Handler (Watched S)
  watched next = tracing_middleware (metrics_middleware (routed next))

  counted_lem :
      (r : HttpRequest) (x : Served) (s : Watched S)
      → count_request r (x, s) ≡ (x, record s { counted = counts r x ++ s.counted })
  counted_lem r (responded status) s = refl
  counted_lem r panicked s = refl

  -- The two middlewares hand on what the router does with the service and how it ends, end one span
  -- for each request, and count each request with its status, but for one that panics.
  watched-eq :
      (next : Handler S) (r : HttpRequest) (s : Watched S)
      → watched next r s
        ≡ let (x, t) = next r s.service in
          (
            x,
            record {
              service = t;
              spans = append r.method (append " " r.path) ∷ s.spans;
              counted = counts r x ++ s.counted;
            },
          )
  unfolding watched tracing_middleware metrics_middleware
  watched-eq next r s =
      ap (end_span (append r.method (append " " r.path)))
        (counted_lem r (next r s.service).0 (record s { service = (next r s.service).1 }))
