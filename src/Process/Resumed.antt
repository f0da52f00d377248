-- ===== src/Process/Resumed.antt =====
-- services/order/main.go: Resume has ended before the server takes its first call.
use micromart.Prelude.{
  ℕ, String, ◌≡◌, refl, Bool, true, false, List, [], ◌∷◌, ◌&&◌, Bool-cases, inl, inr,
}
use micromart.Prelude.Text.{is_empty}
use micromart.Prelude.Exec.{Result, ok, err, ◌>>=◌, ◌>>◌}
use micromart.Prelude.Keeps.{Keeps, >>=-Keeps, if-Keeps}
use micromart.Process.{
  Surroundings, ping_redis, connect_database, dial, listen, ping_clickhouse, open_clickhouse,
  exec_query, new_exporter, new_resource, Resource, tracer_provider, database, redis_client,
  clickhouse_client, inventory_conn, closed, resumed, served, consumer_started, table_created, Log,
  Stop, panicked, exited, Main, emit, run_deferred, deferring, open_checked, close_after, init_otel,
  new_redis_client, using, get, must_get, defer_shutdown,
}
use micromart.Process.Order.{
  new_clickhouse_client, create_tables, resume_and_serve, with_inventory, after_clickhouse,
  with_clickhouse, with_redis, with_database, order_main,
}

unfoldable pub has_resumed : Log → Bool
has_resumed [] = false
has_resumed (resumed ∷ log) = true
has_resumed (e ∷ log) = has_resumed log

-- Each time that the program began to serve, it had resumed its sagas.
unfoldable pub resumed_first : Log → Bool
resumed_first [] = true
resumed_first (served ∷ log) = has_resumed log && resumed_first log
resumed_first (e ∷ log) = resumed_first log

abbrev pub ResumesFirst : Log → Type 0
ResumesFirst log = resumed_first log ≡ true

run_deferred_lem :
    (r : Resource) (x : Result Stop (Unit {0}) × Log)
    → ResumesFirst x.1
    → ResumesFirst (run_deferred (closed r) x).1
unfolding resumed_first
run_deferred_lem r (ok a, log) h = h
run_deferred_lem r (err panicked, log) h = h
run_deferred_lem r (err exited, log) h = h

deferring-ResumesFirst :
    (r : Resource) (rest : Main (Unit {0}))
    → Keeps ResumesFirst rest
    → Keeps ResumesFirst (deferring (closed r) rest)
deferring-ResumesFirst r rest h log o = run_deferred_lem r (rest log) (h log o)

open_checked-ResumesFirst :
    (works check : Bool) (r : Resource) → Keeps ResumesFirst (open_checked works check r)
unfolding resumed_first
open_checked-ResumesFirst true check r log h = h
open_checked-ResumesFirst false check r log h = h

close_after-ResumesFirst :
    (r : Resource) (rest : Main (Unit {0}))
    → Keeps ResumesFirst rest
    → (works : Bool) → Keeps ResumesFirst (close_after r rest works)
close_after-ResumesFirst r rest h true = deferring-ResumesFirst r rest h
close_after-ResumesFirst r rest h false = λ log o. o

using-ResumesFirst :
    (works check : Bool) (r : Resource) (rest : Main (Unit {0}))
    → Keeps ResumesFirst rest
    → Keeps ResumesFirst (using (open_checked works check r) r rest)
using-ResumesFirst works check r rest h =
    >>=-Keeps ResumesFirst (open_checked works check r) (close_after r rest)
      (open_checked-ResumesFirst works check r) (close_after-ResumesFirst r rest h)

module _ (env : Surroundings) where
  must_get-ResumesFirst :
      (key : String) (rest : String → Main (Unit {0}))
      → ((value : String) → Keeps ResumesFirst (rest value))
      → Keeps ResumesFirst (must_get env key rest)
  unfolding must_get
  must_get-ResumesFirst key rest h log o = elim (Bool-cases (is_empty (env.getenv key))) [
    | inl missing ↦ rw missing o
    | inr given ↦ rw given (h (env.getenv key) log o)
  ]

  resume_and_serve-ResumesFirst : Keeps ResumesFirst (resume_and_serve env)
  unfolding resume_and_serve resumed_first has_resumed
  resume_and_serve-ResumesFirst log o =
      elim (Bool-cases (env.answers (listen (get env "GRPC_PORT" "50051")))) [
        | inl works ↦ rw works o
        | inr fails ↦ rw fails o
      ]

  with_inventory-ResumesFirst : Keeps ResumesFirst (with_inventory env)
  unfolding with_inventory
  with_inventory-ResumesFirst = must_get-ResumesFirst "INVENTORY_SERVICE_ADDR" _ λ addr.
      using-ResumesFirst (env.answers (dial addr)) true inventory_conn (resume_and_serve env)
        resume_and_serve-ResumesFirst

  create_tables-ResumesFirst : (queries : List ℕ) → Keeps ResumesFirst (create_tables env queries)
  unfolding create_tables resumed_first
  create_tables-ResumesFirst [] log o = o
  create_tables-ResumesFirst (query ∷ queries) log o =
      elim (Bool-cases (env.answers (exec_query query))) [
        | inl created ↦
            rw created (create_tables-ResumesFirst queries (table_created query ∷ log) o)
        | inr refused ↦ rw refused o
      ]

  after_clickhouse-ResumesFirst : (works : Bool) → Keeps ResumesFirst (after_clickhouse env works)
  unfolding resumed_first
  after_clickhouse-ResumesFirst false = with_inventory-ResumesFirst
  after_clickhouse-ResumesFirst true =
      >>=-Keeps ResumesFirst (create_tables env (0 ∷ 1 ∷ 2 ∷ []))
        (λ _. emit consumer_started >> deferring (closed clickhouse_client) (with_inventory env))
        (create_tables-ResumesFirst (0 ∷ 1 ∷ 2 ∷ []))
        (λ _ log.
          deferring-ResumesFirst clickhouse_client (with_inventory env) with_inventory-ResumesFirst
            (consumer_started ∷ log))

  with_clickhouse-ResumesFirst : Keeps ResumesFirst (with_clickhouse env)
  unfolding with_clickhouse new_clickhouse_client
  with_clickhouse-ResumesFirst =
      let addr = get env "CLICKHOUSE_ADDR" "" in
      let client =
        open_checked (env.answers (open_clickhouse addr)) (env.answers (ping_clickhouse addr))
          clickhouse_client in
      if-Keeps ResumesFirst (is_empty addr) (with_inventory env) (client >>= after_clickhouse env)
        with_inventory-ResumesFirst
        (>>=-Keeps ResumesFirst client (after_clickhouse env)
          (open_checked-ResumesFirst (env.answers (open_clickhouse addr))
            (env.answers (ping_clickhouse addr)) clickhouse_client)
          after_clickhouse-ResumesFirst)

  with_database-ResumesFirst : Keeps ResumesFirst (with_database env)
  unfolding with_database with_redis new_redis_client
  with_database-ResumesFirst = must_get-ResumesFirst "DATABASE_URL" _ λ url.
      using-ResumesFirst (env.answers (connect_database url)) true database (with_redis env) (
        must_get-ResumesFirst "REDIS_ADDR" _ λ addr.
          using-ResumesFirst true (env.answers (ping_redis addr)) redis_client (with_clickhouse env)
            with_clickhouse-ResumesFirst)

  defer_shutdown-ResumesFirst :
      (works : Bool) → Keeps ResumesFirst (defer_shutdown env (with_database env) works)
  defer_shutdown-ResumesFirst true =
      deferring-ResumesFirst tracer_provider (with_database env) with_database-ResumesFirst
  defer_shutdown-ResumesFirst false = with_database-ResumesFirst

  -- In every run of main of the order service the gRPC server begins to serve only after Resume
  -- has ended, with an error or without.
  pub order_main-resumed_first : resumed_first (order_main env []).1 ≡ true
  unfolding order_main init_otel resumed_first
  order_main-resumed_first =
      let endpoint = get env "OTLP_ENDPOINT" "localhost:4317" in
      >>=-Keeps ResumesFirst
        (open_checked (env.answers (new_exporter endpoint)) (env.answers new_resource)
          tracer_provider)
        (defer_shutdown env (with_database env))
        (open_checked-ResumesFirst (env.answers (new_exporter endpoint)) (env.answers new_resource)
          tracer_provider)
        defer_shutdown-ResumesFirst [] refl
