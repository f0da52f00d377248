-- ===== src/Process/Inventory.antt =====
-- services/inventory/main.go
use micromart.Process.{
  Surroundings, connect_database, database, Main, connect, using, get, must_get, with_otel,
  listen_and_serve,
}

module _ (env : Surroundings) where
  -- main of the inventory service
  unfoldable pub inventory_main : Main (Unit {0})
  inventory_main = with_otel env (
      must_get env "DATABASE_URL" λ url.
        using (connect (env.answers (connect_database url)) database) database
          (listen_and_serve env (get env "GRPC_PORT" "50052")))
