-- ===== src/Process/Serving.antt =====
-- When services/*/main.go come to serve: what a start needs, and what it does without.
use micromart.Prelude.{
  ap, ◌∙◌, ℕ, String, ◌≡◌, refl, Bool, true, List, [], ◌∷◌, ◌&&◌, ◌||◌, Bool-cases, inl, inr,
}
use micromart.Prelude.Text.{is_empty}
use micromart.Prelude.Exec.{with_state, >>=-ok, ◌>>◌}
use micromart.Process.{
  Surroundings, ping_redis, connect_database, dial, listen, ping_clickhouse, open_clickhouse,
  serve_http, exec_query, new_exporter, new_resource, tracer_provider, database, redis_client,
  clickhouse_client, order_conn, inventory_conn, closed, resumed, consumer_started, table_created,
  Log, Main, emit, deferring, open_checked, init_otel, new_redis_client, using, get, must_get,
  defer_shutdown, with_otel, listen_and_serve,
}
use micromart.Process.Order.{
  new_clickhouse_client, create_tables, create_tables_returns, resume_and_serve, with_inventory,
  after_clickhouse, with_clickhouse, with_redis, with_database, order_main,
}
use micromart.Process.Inventory.{inventory_main}
use micromart.Process.Gateway.{serve_routes, with_inventory_conn, with_order_conn, gateway_main}
use micromart.Process.ServingRules.{
  has_served, is_set, Serves, idle_lem, true_lem, deferring-Serves, using-Serves, either_Serves,
  must_get-Serves,
}
use micromart.Process.Programs.{Program, order_service, inventory_service, gateway, main_of}

-- What each program needs in order to serve: the settings without a default, and the answers of the
-- connections that are not optional. OpenTelemetry and ClickHouse are.
unfoldable pub can_serve : Program → Surroundings → Bool
can_serve order_service env =
    is_set env "DATABASE_URL"
    && (env.answers (connect_database (env.getenv "DATABASE_URL"))
        && (is_set env "REDIS_ADDR"
            && (env.answers (ping_redis (env.getenv "REDIS_ADDR"))
                && (is_set env "INVENTORY_SERVICE_ADDR"
                    && (env.answers (dial (env.getenv "INVENTORY_SERVICE_ADDR"))
                        && env.answers (listen (get env "GRPC_PORT" "50051")))))))
can_serve inventory_service env =
    is_set env "DATABASE_URL"
    && (env.answers (connect_database (env.getenv "DATABASE_URL"))
        && env.answers (listen (get env "GRPC_PORT" "50052")))
can_serve gateway env =
    is_set env "ORDER_SERVICE_ADDR"
    && (env.answers (dial (env.getenv "ORDER_SERVICE_ADDR"))
        && (is_set env "INVENTORY_SERVICE_ADDR"
            && (env.answers (dial (env.getenv "INVENTORY_SERVICE_ADDR"))
                && env.answers (listen (get env "PORT" "8080")))))

module _ (env : Surroundings) where
  with_otel-Serves :
      (rest : Main (Unit {0})) (b : Bool) → Serves rest b → Serves (with_otel env rest) b
  unfolding init_otel
  with_otel-Serves rest b h =
      either_Serves (env.answers (new_exporter (get env "OTLP_ENDPOINT" "localhost:4317")))
        (env.answers new_resource) tracer_provider (defer_shutdown env rest) b
        (deferring-Serves tracer_provider rest b h) h

  listen_and_serve-Serves :
      (port : String) → Serves (listen_and_serve env port) (env.answers (listen port))
  unfolding has_served
  listen_and_serve-Serves port log = elim (Bool-cases (env.answers (listen port))) [
    | inl works ↦ rw works (true_lem (has_served log))
    | inr fails ↦ rw fails (idle_lem (has_served log))
  ]

  -- The order service.
  create_tables-has_served :
      (queries : List ℕ) (log : Log) → has_served (create_tables env queries log).1 ≡ has_served log
  unfolding create_tables has_served
  create_tables-has_served [] log = refl
  create_tables-has_served (query ∷ queries) log =
      elim (Bool-cases (env.answers (exec_query query))) [
        | inl created ↦ rw created (create_tables-has_served queries (table_created query ∷ log))
        | inr refused ↦ rw refused refl
      ]

  with_inventory-Serves : Serves (with_inventory env) (
      is_set env "INVENTORY_SERVICE_ADDR"
      && (env.answers (dial (env.getenv "INVENTORY_SERVICE_ADDR"))
          && env.answers (listen (get env "GRPC_PORT" "50051"))))
  unfolding with_inventory resume_and_serve has_served
  with_inventory-Serves = must_get-Serves env "INVENTORY_SERVICE_ADDR" _ _ (
      using-Serves (env.answers (dial (env.getenv "INVENTORY_SERVICE_ADDR"))) true inventory_conn
        (resume_and_serve env) (env.answers (listen (get env "GRPC_PORT" "50051")))
        λ log. listen_and_serve-Serves (get env "GRPC_PORT" "50051") (resumed ∷ log))

  -- With tables created or not, and with ClickHouse or not.
  after_clickhouse-Serves :
      (b : Bool) → Serves (with_inventory env) b → Serves (after_clickhouse env true) b
  unfolding has_served
  after_clickhouse-Serves b h log =
      let tables = create_tables env (0 ∷ 1 ∷ 2 ∷ []) in
      let rest =
        emit consumer_started >> deferring (closed clickhouse_client) (with_inventory env) in
      let returns = with_state (tables log) (create_tables_returns env (0 ∷ 1 ∷ 2 ∷ []) log) in
      ap (λ x. has_served x.1) (>>=-ok tables (λ _. rest) log returns)
      ∙ deferring-Serves clickhouse_client (with_inventory env) b h
          (consumer_started ∷ (tables log).1)
      ∙ ap (λ x. x || b) (create_tables-has_served (0 ∷ 1 ∷ 2 ∷ []) log)

  with_clickhouse-Serves :
      (b : Bool) → Serves (with_inventory env) b → Serves (with_clickhouse env) b
  unfolding with_clickhouse new_clickhouse_client
  with_clickhouse-Serves b h log = elim (Bool-cases (is_empty (get env "CLICKHOUSE_ADDR" ""))) [
    | inl missing ↦ rw missing (h log)
    | inr given ↦
        let addr = get env "CLICKHOUSE_ADDR" "" in
        rw given (
          either_Serves (env.answers (open_clickhouse addr)) (env.answers (ping_clickhouse addr))
            clickhouse_client (after_clickhouse env) b (after_clickhouse-Serves b h) h log)
  ]

  with_redis-Serves :
      (b : Bool)
      → Serves (with_clickhouse env) b
      → Serves
          (with_redis env)
          (is_set env "REDIS_ADDR" && (env.answers (ping_redis (env.getenv "REDIS_ADDR")) && b))
  unfolding with_redis new_redis_client
  with_redis-Serves b h = must_get-Serves env "REDIS_ADDR" _ _ (
      using-Serves true (env.answers (ping_redis (env.getenv "REDIS_ADDR"))) redis_client
        (with_clickhouse env) b h)

  on_database-Serves :
      (rest : Main (Unit {0})) (b : Bool)
      → Serves rest b
      → Serves
          (must_get env "DATABASE_URL" λ url.
            using (open_checked (env.answers (connect_database url)) true database) database rest)
          (is_set env "DATABASE_URL"
            && (env.answers (connect_database (env.getenv "DATABASE_URL")) && b))
  on_database-Serves rest b h = must_get-Serves env "DATABASE_URL" _ _ (
      using-Serves (env.answers (connect_database (env.getenv "DATABASE_URL"))) true database rest b
        h)

  -- The gateway.
  serve_routes-Serves : Serves (serve_routes env) (env.answers (listen (get env "PORT" "8080")))
  unfolding serve_routes has_served
  serve_routes-Serves log = elim (Bool-cases (env.answers (listen (get env "PORT" "8080")))) [
    | inl free ↦ rw free (elim (Bool-cases (env.answers serve_http)) [
      | inl stopped ↦ rw stopped (true_lem (has_served log))
      | inr failed ↦ rw failed (true_lem (has_served log))
    ])
    | inr taken ↦ rw taken (idle_lem (has_served log))
  ]

  with_inventory_conn-Serves : Serves (with_inventory_conn env) (
      is_set env "INVENTORY_SERVICE_ADDR"
      && (env.answers (dial (env.getenv "INVENTORY_SERVICE_ADDR"))
          && env.answers (listen (get env "PORT" "8080"))))
  unfolding with_inventory_conn
  with_inventory_conn-Serves = must_get-Serves env "INVENTORY_SERVICE_ADDR" _ _ (
      using-Serves (env.answers (dial (env.getenv "INVENTORY_SERVICE_ADDR"))) true inventory_conn
        (serve_routes env) (env.answers (listen (get env "PORT" "8080"))) serve_routes-Serves)

  -- A program comes to serve exactly where its required settings are there, its required
  -- connections are made and its port is free, whatever becomes of OpenTelemetry, of ClickHouse and its tables, and of
  -- the sagas that are resumed.
  pub main_of-has_served :
      (program : Program) → has_served (main_of program env []).1 ≡ can_serve program env
  unfolding main_of order_main with_database inventory_main gateway_main with_order_conn can_serve
      has_served
  main_of-has_served order_service =
      with_otel-Serves (with_database env) _
        (on_database-Serves (with_redis env) _
          (with_redis-Serves _ (with_clickhouse-Serves _ with_inventory-Serves)))
        []
  main_of-has_served inventory_service =
      with_otel-Serves _ _
        (on_database-Serves (listen_and_serve env (get env "GRPC_PORT" "50052")) _
          (listen_and_serve-Serves (get env "GRPC_PORT" "50052")))
        []
  main_of-has_served gateway =
      with_otel-Serves (with_order_conn env) _
        (must_get-Serves env "ORDER_SERVICE_ADDR" _ _ (
          using-Serves (env.answers (dial (env.getenv "ORDER_SERVICE_ADDR"))) true order_conn
            (with_inventory_conn env) _ with_inventory_conn-Serves))
        []
