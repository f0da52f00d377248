-- ===== src/Process/Order.antt =====
-- services/order/main.go, and NewClickHouseClient and CreateTables of clickhouse.go.
use micromart.Prelude.{
  ◌≡◌, refl, Bool-cases, inl, inr, ℕ, String, Bool, true, false, List, [], ◌∷◌, if◌then◌else◌,
}
use micromart.Prelude.Text.{is_empty}
use micromart.Prelude.Exec.{ok, ◌>>=◌, ◌>>◌}
use micromart.Process.{
  Surroundings, open_clickhouse, ping_clickhouse, exec_query, connect_database, dial, database,
  redis_client, clickhouse_client, inventory_conn, consumer_started, resumed, table_created, closed,
  Main, Log, emit, deferring, connect, open_checked, using, get, must_get, new_redis_client,
  with_otel, listen_and_serve,
}

module _ (env : Surroundings) where
  -- NewClickHouseClient
  unfoldable pub new_clickhouse_client : String → Main Bool
  new_clickhouse_client addr =
      open_checked (env.answers (open_clickhouse addr)) (env.answers (ping_clickhouse addr))
        clickhouse_client

  -- The loop of CreateTables, which ends with the first error; main only logs it.
  unfoldable pub create_tables : List ℕ → Main (Unit {0})
  create_tables [] log = (ok tt, log)
  create_tables (query ∷ queries) log =
      if env.answers (exec_query query)
      then create_tables queries (table_created query ∷ log)
      else (ok tt, log)

  -- It returns, with an error or without.
  pub create_tables_returns : (queries : List ℕ) (log : Log) → (create_tables queries log).0 ≡ ok tt
  unfolding create_tables
  create_tables_returns [] log = refl
  create_tables_returns (query ∷ queries) log = elim (Bool-cases (env.answers (exec_query query))) [
    | inl created ↦ rw created (create_tables_returns queries (table_created query ∷ log))
    | inr refused ↦ rw refused refl
  ]

  -- Resume, whose error is logged, and the gRPC server.
  unfoldable pub resume_and_serve : Main (Unit {0})
  resume_and_serve = do emit resumed; listen_and_serve env (get env "GRPC_PORT" "50051")

  -- The connection to the inventory service.
  unfoldable pub with_inventory : Main (Unit {0})
  with_inventory = must_get env "INVENTORY_SERVICE_ADDR" λ addr.
      using (connect (env.answers (dial addr)) inventory_conn) inventory_conn resume_and_serve

  -- `if err != nil { log } else { ... }` after NewClickHouseClient.
  abbrev pub after_clickhouse : Bool → Main (Unit {0})
  after_clickhouse false = with_inventory
  after_clickhouse true = do
    create_tables (0 ∷ 1 ∷ 2 ∷ [])
    emit consumer_started
    deferring (closed clickhouse_client) with_inventory

  -- ClickHouse is left out where there is no address for it.
  unfoldable pub with_clickhouse : Main (Unit {0})
  with_clickhouse =
      if is_empty (get env "CLICKHOUSE_ADDR" "")
      then with_inventory
      else (new_clickhouse_client (get env "CLICKHOUSE_ADDR" "") >>= after_clickhouse)

  unfoldable pub with_redis : Main (Unit {0})
  with_redis =
      must_get env "REDIS_ADDR"
        λ addr. using (new_redis_client env addr) redis_client with_clickhouse

  unfoldable pub with_database : Main (Unit {0})
  with_database =
      must_get env "DATABASE_URL"
        λ url. using (connect (env.answers (connect_database url)) database) database with_redis

  -- main of the order service
  unfoldable pub order_main : Main (Unit {0})
  order_main = with_otel env with_database
