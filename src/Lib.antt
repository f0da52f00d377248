-- ===== src/Lib.antt =====
-- micromart is a small shop: an order service, an inventory service and a gateway, in Go, that call
-- each other by gRPC and keep their rows in PostgreSQL. An order is carried out by a saga: reserve
-- the stock, take the payment, decrement the stock, and release the reservation if one of the last
-- two steps fails. This library models the two services, the handlers of the gateway in front of them
-- and the lock and cache in Redis, puts them together over a network that loses messages, follows the
-- start of the three programs, and proves what the saga, the stock's bookkeeping, the lists, the consumer
-- of order events and the start-up promise.
--
-- Parts and files. Paths are those of the repository.
--   Prelude, Prelude/*     shared names; Boolean tests, lists, Go's int32 and int64 (wrap32, wrap64),
--                          texts, and Exec: a call that changes a state and returns a value or an
--                          error, composed by do blocks the way the Go code returns early. Raises
--                          and Keeps say which errors a call can end in, and what it leaves alone.
--                          Ascii, Base64 and Atoi are Go's base64.StdEncoding and strconv.Atoi.
--   Sql, Sql/*             what the code relies on of PostgreSQL: a World is the tables, the uuids
--                          that gen_random_uuid() returns, the value of NOW(), and a list that says
--                          how the coming calls end (carried out; failed; carried out with the answer
--                          lost). `statement` is one call; `transaction` is BeginTxx, a body and
--                          Commit, with the deferred Rollback. Laws and Keys are their lemmas.
--   Inventory/Entity       services/inventory/entity.go, errx.go, and the tables of
--                          migrations/inventory.
--   Inventory/Stock        services/inventory/stock_repository.go: ReserveStock is reserve_stock,
--                          with reserve_item as one round of its loop; ReleaseStock and
--                          DecrementStock are release_stock and decrement_stock, which share settle.
--   Inventory/StockServer  services/inventory/stock_server.go: the three handlers over them.
--   Inventory/Holdings, Updates, Takes, Consistency, Settles, Settlement
--                          what the reservations hold, and the invariant of the tables.
--   Inventory/Invariants, References, Ledger, Conserved
--                          what keeps an invariant of the tables: the foreign key, and what was sold.
--   Inventory/Service, History
--                          the eight handlers as one service (serve) with its histories (serve_all).
--   Inventory/Effects, Closing, RoundTrip, Repeated, Calm, CalmReserve, Whole
--                          what the operations do to the stock, and that they return.
--   Inventory/Products, ProductServer, ProductRows, ProductCreation
--                          services/inventory/product_repository.go and product_server.go: create,
--                          get and update, and what they do to the tables. The UPDATE is built as in
--                          Go: a Builder has setClauses with their $n, args and argIdx.
--   Inventory/Placeholders, PartialUpdate
--                          what the numbers of that UPDATE stand for, and what it does.
--   Paging/Cursor, Page    the cursors of services/inventory/helper.go and services/order/helper.go,
--                          and what the three keyset queries have in common: list_page is one call,
--                          cut_page the row too many that makes a next token.
--   Paging/Bounds          how many rows a page has, and when it has a next token.
--   Paging/Ascending, Walk ORDER BY id, and a client that reads page after page (all_pages; its fuel is
--                          the number of rows and one, which the theorems show to be enough).
--   Inventory/ProductList  ListProducts and SearchProducts, in the repository and the server.
--   Grpc/Retry, Retried    pkg/grpcutil/retry.go and circuit_breaker.go: retry_interceptor and
--                          circuit_breaker_interceptor, and how a retried call ends.
--   Grpc/Backoff           backoffWithJitter of retry.go, and how long a retried call waits.
--   Grpc/Invariants        what the client's interceptors leave alone.
--   Grpc/Interceptors, Observations
--                          pkg/grpcutil/server.go: the interceptors of a server and their chains.
--   Grpc/Client            pkg/grpcutil/client.go, DialWithResilience.
--   Grpc/Connection        Dial of client.go, as the gateway uses it: a call has a Fate, to be answered
--                          or to fail as grpc-go lets it fail, before or after it was carried out.
--   Grpc/Status, Inventory the status codes, and InventoryServiceClient as a record of calls on a
--                          remote state, the interface between the two services.
--   Order/Entity, System   services/order/entity.go, the tables of migrations/order, and the state
--                          that the order service works on: database, remote side, published events.
--   Order/SagaRows, Saga   services/order/saga.go: Execute is execute, from whose step functions
--                          (run_steps, reserved, request_payment, paid, confirmed) each continues
--                          where a call has been answered; Resume is resume.
--   Order/Telemetry, Telemetry/*
--                          saga.go again, with the spans and metrics that it reports: execute_traced
--                          goes through the same steps as execute, with the suffix _traced.
--   Order/Repository, Queries
--                          services/order/order_repository.go, with ListOrders in Order/OrderList.
--   Order/Messages, Server services/order/helper.go and order_server.go; the handler of ListOrders is
--                          in Order/OrderList.
--   Order/Analytics        services/order/clickhouse.go: Publish, the goroutine of StartConsumer, flush
--                          and Close, as steps on the channel and the batch that interleave.
--   Order/AnalyticsLaws, AnalyticsStop
--                          what every run of them keeps, and how it can end.
--   Order/SagaCalls, SagaOutcome, AllOrNothing
--                          what a saga does to the other services, to its own rows, and to the stock.
--   Order/Lines, Creation, Totals, Idempotency, Cancellation, Cancellation/AfterSaga
--                          what CreateOrder and CancelOrder do.
--   Order/Resumed, Resumed/Stock
--                          what Resume leaves behind, in its own tables and in the inventory's.
--   Order/CalmSaga, Execution, LookUps, CalmCreation, Checkout
--                          order server, saga and inventory put together.
--   Order/SagaKeeps, ServerKeeps, ReadsKeep
--                          what keeps an invariant of the saga and of the order server.
--   Order/Network, Shop, ShopStock
--                          services/order/main.go, the inventory client: every attempt of a call has
--                          a Turn, what others ask of the inventory before it and what becomes of its
--                          request and answer; and the order service over it, with its restarts.
--   Redis/Store, Lock, Idempotency, Laws, Repeated
--                          pkg/redis/distributed_locking.go and idempotency.go over go-redis, which is
--                          the record Store with two documented behaviours as hypotheses.
--   Gateway/Http, Orders, Products
--                          services/gateway/helper.go, the two handler files and their DTOs, and the
--                          routes of main.go (serve).
--   Gateway/ServerCodes, Statuses, ProductStatuses, Walk
--                          which statuses a client sees, and how it pages through a list.
--   Gateway/Middlewares    services/gateway/middlewares.go.
--   Process, Process/*     services/order/main.go, services/inventory/main.go and
--                          services/gateway/main.go as order_main, inventory_main and gateway_main,
--                          with pkg/config, the Init of pkg/otel, NewClient of pkg/redis and the
--                          constructors of clickhouse.go: a Log of what is opened, closed and served,
--                          deferred calls that run after a panic and not by os.Exit.
--   Tests/*                the theorems at concrete inputs.
--
-- How the model stands to the code. An id is the number that its UUID stands for; Uuids is what
-- PostgreSQL reads and prints, a parameter with the law that a printed id is read back. A column with
-- CHECK (... >= 0) is a natural number, and a statement that would violate a constraint is refused. A
-- SELECT without ORDER BY returns rows in the order of their insertion. The row locks of SELECT ...
-- FOR UPDATE make the transactions on a product run one after another, and a transaction is one step.
-- One interleaving of the code is left out by that: under READ COMMITTED a ReserveStock can commit
-- rows of an order between the SELECT and the last UPDATE of a ReleaseStock or DecrementStock of the
-- same order; Tests/Stock runs it in parts of the model (release_races), and what holds of the
-- histories of the services is said of transactions that are one step. A statement can also fail for
-- any reason that the list of outcomes gives it, which stands for time-outs, cancelled contexts and
-- texts too long for their column. Loops are over lists, and those of the retries over the count of
-- them, so no fuel is needed; only all_pages, a client of the lists, has fuel. The consumer of events
-- is a step relation, as its select may take any case that is ready. A panic is a way for a handler
-- to end in Grpc/Interceptors and Gateway/Middlewares, and for main in Process. The histories of
-- Inventory/Service and Order/Shop are lists of requests, one after another: requests to the order
-- service interleave with those of others to the inventory service at every attempt of a call, not
-- with each other.
--
-- Not modelled: the texts of errors, log lines, durations and HTTP headers; the metrics but those of the
-- saga, of the gRPC server and of the gateway, with the server that shows them; the decoding of JSON
-- bodies, which are given decoded or refused; what ClickHouse makes of its tables, and the query of the
-- daily revenue, which nothing calls; pool sizes and the settings of the circuit breaker; the middlewares
-- of chi; generated code. The payment processor, the remote service, the circuit breaker's state, the
-- random factor of the backoff, the answers of the libraries at start-up, go-redis, the JSON form of a
-- cached response, the match of a full-text query and the texts of statuses and times are parameters.
pub mod Gateway
pub mod Grpc
pub mod Inventory
pub mod Order
pub mod Paging
pub mod Prelude
pub mod Process
pub mod Redis
pub mod Sql
pub mod Tests
