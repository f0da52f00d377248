-- ===== src/Process/Closed.antt =====
-- What services/*/main.go opened, it has closed when it ends.
use mathlib.Core.Path.{subst}
use micromart.Prelude.{
  sym, ℕ, String, ◌≡◌, ◌≢◌, refl, true, false, List, [], ◌∷◌, ◌+◌, arith, Bool-cases, inl, inr,
}
use micromart.Prelude.Text.{is_empty}
use micromart.Prelude.Exec.{with_state, >>=-ok, ◌>>◌}
use micromart.Process.{
  Surroundings, ping_redis, ping_clickhouse, new_resource, new_exporter, connect_database, dial,
  listen, open_clickhouse, serve_http, exec_query, Resource, tracer_provider, database,
  redis_client, clickhouse_client, order_conn, inventory_conn, listener, number, Log, closed,
  resumed, consumer_started, table_created, Main, emit, deferring, init_otel, new_redis_client, get,
  defer_shutdown, with_otel, serving, listen_and_serve,
}
use micromart.Process.Order.{
  new_clickhouse_client, create_tables, create_tables_returns, resume_and_serve, with_inventory,
  after_clickhouse, with_clickhouse, with_redis, with_database, order_main,
}
use micromart.Process.Inventory.{inventory_main}
use micromart.Process.Gateway.{serve_routes, with_inventory_conn, with_order_conn, gateway_main}
use micromart.Process.Programs.{Program, order_service, inventory_service, gateway, main_of}
use micromart.Process.Closing.{
  opens, closes, IsOpened, Leaves, Balances, one_of, deferring-Leaves, must_get-Balances,
  open_checked-Balances, using-Balances,
}

-- The constructors of three resources open first and check then: their check is to succeed.
abbrev pub PassesCheck : Surroundings → Resource → Type 0
PassesCheck env tracer_provider = env.answers new_resource ≡ true
PassesCheck env redis_client = (addr : String) → env.answers (ping_redis addr) ≡ true
PassesCheck env clickhouse_client = (addr : String) → env.answers (ping_clickhouse addr) ≡ true
PassesCheck env _ = Unit

module _ (env : Surroundings) (counted : Resource) (passes : PassesCheck env counted) where
  abbrev k : ℕ
  k = number counted

  tracer_passes :
      (r : Resource) → PassesCheck env r → env.answers new_resource ≡ false → 0 ≢ number r
  tracer_passes tracer_provider p f = absurd (ground arith)
  tracer_passes _ p f = ground arith

  redis_passes :
      (r : Resource) (addr : String)
      → PassesCheck env r
      → env.answers (ping_redis addr) ≡ false
      → 2 ≢ number r
  redis_passes redis_client addr p f = absurd (ground (arith, p addr))
  redis_passes _ addr p f = ground arith

  clickhouse_passes :
      (r : Resource) (addr : String)
      → PassesCheck env r
      → env.answers (ping_clickhouse addr) ≡ false
      → 3 ≢ number r
  clickhouse_passes clickhouse_client addr p f = absurd (ground (arith, p addr))
  clickhouse_passes _ addr p f = ground arith

  with_otel-Balances : (rest : Main (Unit {0})) → Balances k rest → Balances k (with_otel env rest)
  unfolding init_otel
  with_otel-Balances rest h =
      open_checked-Balances k
        (env.answers (new_exporter (get env "OTLP_ENDPOINT" "localhost:4317")))
        (env.answers new_resource) tracer_provider (defer_shutdown env rest)
        (tracer_passes counted passes) h (λ n log. deferring-Leaves k tracer_provider rest n log h)

  listen_and_serve-Balances : (port : String) → Balances k (listen_and_serve env port)
  unfolding opens closes
  listen_and_serve-Balances port =
      open_checked-Balances k (env.answers (listen port)) true listener (serving env)
        (λ e. absurd (ground arith)) (λ n log o. o) (λ n log o. omega (arith, o))

  -- The order service.
  create_tables-Balances : (queries : List ℕ) → Balances k (create_tables env queries)
  unfolding create_tables opens closes
  create_tables-Balances [] n log o = o
  create_tables-Balances (query ∷ queries) n log o =
      elim (Bool-cases (env.answers (exec_query query))) [
        | inl created ↦ rw created (create_tables-Balances queries n (table_created query ∷ log) o)
        | inr refused ↦ rw refused o
      ]

  resume_and_serve-Balances : Balances k (resume_and_serve env)
  unfolding resume_and_serve opens closes
  resume_and_serve-Balances n log o =
      listen_and_serve-Balances (get env "GRPC_PORT" "50051") n (resumed ∷ log) o

  with_inventory-Balances : Balances k (with_inventory env)
  unfolding with_inventory
  with_inventory-Balances = must_get-Balances k env "INVENTORY_SERVICE_ADDR" _ λ addr.
      using-Balances k (env.answers (dial addr)) true inventory_conn (resume_and_serve env)
        (λ e. absurd (ground arith)) resume_and_serve-Balances

  after_clickhouse_lem :
      (n : ℕ) (log : Log)
      → IsOpened k (one_of clickhouse_client k + n) log
      → Leaves k n (after_clickhouse env true log)
  unfolding opens closes
  after_clickhouse_lem n log o =
      let tables = create_tables env (0 ∷ 1 ∷ 2 ∷ []) in
      let rest =
        emit consumer_started >> deferring (closed clickhouse_client) (with_inventory env) in
      let returns = with_state (tables log) (create_tables_returns env (0 ∷ 1 ∷ 2 ∷ []) log) in
      subst (Leaves k n) (sym (>>=-ok tables (λ _. rest) log returns)) (
        deferring-Leaves k clickhouse_client (with_inventory env) n
          (consumer_started ∷ (tables log).1) with_inventory-Balances
          (subst (Leaves k (one_of clickhouse_client k + n)) returns
            (create_tables-Balances (0 ∷ 1 ∷ 2 ∷ []) (one_of clickhouse_client k + n) log o)))

  with_clickhouse-Balances : Balances k (with_clickhouse env)
  unfolding with_clickhouse new_clickhouse_client
  with_clickhouse-Balances n log o = elim (Bool-cases (is_empty (get env "CLICKHOUSE_ADDR" ""))) [
    | inl missing ↦ rw missing (with_inventory-Balances n log o)
    | inr given ↦
        let addr = get env "CLICKHOUSE_ADDR" "" in
        rw given (
          open_checked-Balances k (env.answers (open_clickhouse addr))
            (env.answers (ping_clickhouse addr)) clickhouse_client (after_clickhouse env)
            (clickhouse_passes counted addr passes) with_inventory-Balances after_clickhouse_lem n
            log o)
  ]

  with_redis-Balances : Balances k (with_redis env)
  unfolding with_redis new_redis_client
  with_redis-Balances = must_get-Balances k env "REDIS_ADDR" _ λ addr.
      using-Balances k true (env.answers (ping_redis addr)) redis_client (with_clickhouse env)
        (redis_passes counted addr passes) with_clickhouse-Balances

  with_database-Balances : Balances k (with_database env)
  unfolding with_database
  with_database-Balances = must_get-Balances k env "DATABASE_URL" _ λ url.
      using-Balances k (env.answers (connect_database url)) true database (with_redis env)
        (λ e. absurd (ground arith)) with_redis-Balances

  -- The gateway.
  serve_routes-Balances : Balances k (serve_routes env)
  unfolding serve_routes opens closes
  serve_routes-Balances n log o = elim (Bool-cases (env.answers (listen (get env "PORT" "8080")))) [
    | inl free ↦ rw free (elim (Bool-cases (env.answers serve_http)) [
      | inl stopped ↦ rw stopped (omega (arith, o))
      | inr failed ↦ rw failed tt
    ])
    | inr taken ↦ rw taken tt
  ]

  with_inventory_conn-Balances : Balances k (with_inventory_conn env)
  unfolding with_inventory_conn
  with_inventory_conn-Balances = must_get-Balances k env "INVENTORY_SERVICE_ADDR" _ λ addr.
      using-Balances k (env.answers (dial addr)) true inventory_conn (serve_routes env)
        (λ e. absurd (ground arith)) serve_routes-Balances

  with_order_conn-Balances : Balances k (with_order_conn env)
  unfolding with_order_conn
  with_order_conn-Balances = must_get-Balances k env "ORDER_SERVICE_ADDR" _ λ addr.
      using-Balances k (env.answers (dial addr)) true order_conn (with_inventory_conn env)
        (λ e. absurd (ground arith)) with_inventory_conn-Balances

  main_of-Balances : (program : Program) → Balances k (main_of program env)
  unfolding main_of order_main inventory_main gateway_main
  main_of-Balances order_service = with_otel-Balances (with_database env) with_database-Balances
  main_of-Balances inventory_service = with_otel-Balances _ (
      must_get-Balances k env "DATABASE_URL" _ λ url.
        using-Balances k (env.answers (connect_database url)) true database
          (listen_and_serve env (get env "GRPC_PORT" "50052")) (λ e. absurd (ground arith))
          (listen_and_serve-Balances (get env "GRPC_PORT" "50052")))
  main_of-Balances gateway = with_otel-Balances (with_order_conn env) with_order_conn-Balances

  -- When main of a program has returned or panicked, wherever that was, it has closed each resource
  -- as often as it has opened it, provided that the check that the constructor of the resource ends
  -- with succeeds, where it has one; os.Exit leaves the closing to the operating system.
  pub main_of-Leaves : (program : Program) → Leaves (number counted) 0 (main_of program env [])
  unfolding opens closes
  main_of-Leaves program = main_of-Balances program 0 [] refl
