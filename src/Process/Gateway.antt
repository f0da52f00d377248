-- ===== src/Process/Gateway.antt =====
-- services/gateway/main.go, less the routes.
use micromart.Prelude.{Bool, true, false}
use micromart.Prelude.Exec.{err, pure, ◌>>◌}
use micromart.Process.{
  Surroundings, dial, listen, serve_http, get, order_conn, inventory_conn, signal_context,
  shutdown_context, opened, closed, served, exited, Main, emit, deferring, connect, using, must_get,
  with_otel,
}

-- Shutdown, with a context that is cancelled at the end.
abbrev pub shut_down : Main (Unit {0})
shut_down = do emit (opened shutdown_context); deferring (closed shutdown_context) (pure tt)

-- Serve, to which ListenAndServe comes once the port is bound, ends in an error: the goroutine ends
-- the process. Else the wait for a signal.
abbrev pub served_until : Bool → Main (Unit {0})
served_until true log = shut_down log
served_until false log = (err exited, log)

-- ListenAndServe: a port that cannot be bound is an error before anything is served.
abbrev pub bound : Bool → Bool → Main (Unit {0})
bound true serves log = (emit served >> served_until serves) log
bound false serves log = (err exited, log)

module _ (env : Surroundings) where
  unfoldable pub serve_routes : Main (Unit {0})
  serve_routes = do
    emit (opened signal_context)
    deferring (closed signal_context)
        (bound (env.answers (listen (get env "PORT" "8080"))) (env.answers serve_http))

  unfoldable pub with_inventory_conn : Main (Unit {0})
  with_inventory_conn =
      must_get env "INVENTORY_SERVICE_ADDR"
        λ addr. using (connect (env.answers (dial addr)) inventory_conn) inventory_conn serve_routes

  unfoldable pub with_order_conn : Main (Unit {0})
  with_order_conn =
      must_get env "ORDER_SERVICE_ADDR"
        λ addr. using (connect (env.answers (dial addr)) order_conn) order_conn with_inventory_conn

  -- main of the gateway
  unfoldable pub gateway_main : Main (Unit {0})
  gateway_main = with_otel env with_order_conn
