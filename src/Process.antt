-- ===== src/Process.antt =====
-- What the three programs have in common (services/order/main.go, services/inventory/main.go and
-- services/gateway/main.go, with pkg/config, pkg/otel, pkg/redis/client.go and the constructors they
-- call): resources that are opened and closed, and required settings. Log lines, the sizes of the
-- connection pools and the metrics server are left out.
pub mod Order
pub mod Inventory
pub mod Gateway
pub mod Programs
pub mod Closing
pub mod Closed
pub mod ServingRules
pub mod Serving
pub mod Resumed
use micromart.Prelude.{ℕ, String, Bool, true, false, List, ◌∷◌, if◌then◌else◌}
use micromart.Prelude.Text.{is_empty}
use micromart.Prelude.Exec.{Result, ok, err, Exec, pure, ◌>>=◌, ◌>>◌}

-- The calls outside whose answer decides how a start goes on: true is no error.
pub data Attempt : Type 0 where
  new_exporter connect_database ping_redis open_clickhouse ping_clickhouse dial listen :
      String → Attempt
  new_resource serve_http : Attempt
  exec_query : ℕ → Attempt

-- The environment variables, empty where they are not set, and the answers.
pub record Surroundings : Type 0 where
  pub getenv : String → String
  pub answers : Attempt → Bool

pub data Resource : Type 0 where
  tracer_provider database redis_client clickhouse_client order_conn inventory_conn listener :
      Resource
  signal_context shutdown_context : Resource

abbrev pub number : Resource → ℕ
number tracer_provider = 0
number database = 1
number redis_client = 2
number clickhouse_client = 3
number order_conn = 4
number inventory_conn = 5
number listener = 6
number signal_context = 7
number shutdown_context = 8

pub data ProcessEvent : Type 0 where
  opened closed : Resource → ProcessEvent
  consumer_started resumed served : ProcessEvent
  table_created : ℕ → ProcessEvent

-- What happened, the latest first.
abbrev pub Log : Type 0
Log = List ProcessEvent

-- How main ends early: by a panic, or by os.Exit.
pub data Stop : Type 0 where
  panicked exited : Stop

abbrev pub Main : Type 0 → Type 0
Main A = Exec Log Stop A

abbrev pub emit : ProcessEvent → Main (Unit {0})
emit e log = (ok tt, e ∷ log)

module _ {A : Type 0} where
  abbrev pub run_deferred : ProcessEvent → Result Stop A × Log → Result Stop A × Log
  run_deferred e (ok a, log) = (ok a, e ∷ log)
  run_deferred e (err panicked, log) = (err panicked, e ∷ log)
  run_deferred e (err exited, log) = (err exited, log)

  -- `defer` and the rest of main: run at its end and after a panic, but not by os.Exit.
  abbrev pub deferring : ProcessEvent → Main A → Main A
  deferring e rest log = run_deferred e (rest log)

-- A constructor that opens first and then checks: where the check fails it returns only the error.
abbrev pub open_checked : Bool → Bool → Resource → Main Bool
open_checked true check r = emit (opened r) >> pure check
open_checked false check r = pure false

-- A constructor that opens nothing where it fails.
abbrev pub connect : Bool → Resource → Main Bool
connect works r = open_checked works true r

-- `if err != nil { return }`, else the deferred close and the rest.
abbrev pub close_after : Resource → Main (Unit {0}) → Bool → Main (Unit {0})
close_after r rest true = deferring (closed r) rest
close_after r rest false = pure tt

-- `x, err := New(); if err != nil { log; return }; defer x.Close()` and the rest of main.
abbrev pub using : Main Bool → Resource → Main (Unit {0}) → Main (Unit {0})
using acquire r rest = acquire >>= close_after r rest

module _ (env : Surroundings) where
  -- config.Get
  unfoldable pub get : String → String → String
  get key fallback = if is_empty (env.getenv key) then fallback else env.getenv key

  -- config.MustGet, and what follows with its value.
  unfoldable pub must_get : String → (String → Main (Unit {0})) → Main (Unit {0})
  must_get key rest log =
      if is_empty (env.getenv key) then (err panicked, log) else rest (env.getenv key) log

  -- otelpkg.Init
  unfoldable pub init_otel : String → Main Bool
  init_otel endpoint =
      open_checked (env.answers (new_exporter endpoint)) (env.answers new_resource) tracer_provider

  -- redispkg.NewClient
  unfoldable pub new_redis_client : String → Main Bool
  new_redis_client addr = open_checked true (env.answers (ping_redis addr)) redis_client

  -- A program that goes on without traces where Init failed.
  abbrev pub defer_shutdown : Main (Unit {0}) → Bool → Main (Unit {0})
  defer_shutdown rest true = deferring (closed tracer_provider) rest
  defer_shutdown rest false = rest

  abbrev pub with_otel : Main (Unit {0}) → Main (Unit {0})
  with_otel rest = init_otel (get "OTLP_ENDPOINT" "localhost:4317") >>= defer_shutdown rest

  -- signal.NotifyContext, the goroutine that serves, the wait for a signal, and GracefulStop, which
  -- closes the listener.
  abbrev pub serve_grpc : Main (Unit {0})
  serve_grpc = do
    emit (opened signal_context)
    deferring (closed signal_context) (emit served >> emit (closed listener))

  -- net.Listen and the rest of main.
  abbrev pub serving : Bool → Main (Unit {0})
  serving true = serve_grpc
  serving false = pure tt

  abbrev pub listen_and_serve : String → Main (Unit {0})
  listen_and_serve port = connect (env.answers (listen port)) listener >>= serving
