-- ===== src/Order/Checkout.antt =====
-- CreateOrder of the order server, its saga and the inventory service together.
use mathlib.Core.Path.{subst}
use micromart.Prelude.{
  ℕ, String, ◌≡◌, refl, sym, ◌∙◌, Bool, none, some, List, [], ◌∷◌, filter, ◌==◌, Bool-cases, inl,
  inr, arith,
}
use micromart.Prelude.Text.{is_empty}
use micromart.Prelude.Exec.{◌>>=◌, pure, Result, ok, err, >>=-ok, >>=-err, with_state, Result-cases}
use micromart.Sql.{World, Uuids, calm}
use micromart.Sql.Keys.{find_key, find_key-last}
use micromart.Grpc.Status.{Code}
use micromart.Inventory.Entity.{Tables}
use micromart.Inventory.ProductServer
use micromart.Inventory.Stock.{StockItem, is_held_by}
use micromart.Inventory.Consistency.{IsConsistent}
use micromart.Inventory.RoundTrip.{AllSettled}
use micromart.Order.Entity
use micromart.Order.Entity.{Order, OrderItem, OrderStatus, SagaState, pending}
use micromart.Order.System.{System, on_db}
use micromart.Order.Saga.{execute, attempt}
use micromart.Order.Repository
use micromart.Order.Repository.{
  taken_key, null_string, RepositoryError, CreateOrderItemParams, CreateOrderParams,
}
use micromart.Order.Queries
use micromart.Order.Messages.{CreateOrderRequest, OrderMessage, status_to_proto, order_to_proto}
use micromart.Order.Server.{
  Server, create_order, created, cache_response, refetched, cached_response, unless_cached,
  with_items_of, look_up_products, saga_input,
}
use micromart.Order.SagaOutcome.{at}
use micromart.Order.CalmSaga.{IsCalm}
use micromart.Order.AllOrNothing.{AllSettled-refl}
use micromart.Order.Execution.{Executed, sold_as, execute_start-Executed}
use micromart.Order.Cancellation.{select_order-calm, items_of-calm}
use micromart.Order.Creation.{Created, create_order-Created}
use micromart.Order.CalmCreation.{not_duplicate, create_order-IsCalm, create_order-Raises}
use micromart.Prelude.Raises.{OnError}
use micromart.Order.LookUps.{shop_server, look_up_products-Untouched}

calm_world : {T : Type 0} (w : World T) → IsCalm w → w ≡ calm w.tables w.uuids w.now
calm_world w h i = record w { outcomes = h i }

get_order-calm :
    ⦃u : Uuids⦄ (id : String) (k : ℕ) (t : Entity.Tables) (us : ℕ → ℕ) (n : ℕ) {o : Order}
    → u.parse id ≡ some k
    → find_key (λ o. o.id) k t.orders ≡ some o
    → Queries.get_order id (calm t us n)
      ≡ (ok (o, filter (λ i. i.order_id == k) t.order_items), calm t us n)
unfolding Queries.get_order
get_order-calm id k t us n {o} pk found =
    >>=-ok (Queries.select_order id >>= Queries.one_row RepositoryError.not_found)
      (Queries.with_items id) (calm t us n) {a = o} {t = calm t us n}
      (>>=-ok (Queries.select_order id) (Queries.one_row RepositoryError.not_found) (calm t us n)
        (select_order-calm id k pk t us n found))
    ∙ >>=-ok (Queries.items_of id) (λ items. pure (o, items)) (calm t us n)
        (items_of-calm id k pk t us n t)

module _ ⦃u : Uuids⦄ (items : List StockItem) (t : Tables) where
  -- What the answer says of the order's row, and the row of the stock. A request that was refused has
  -- taken nothing.
  abbrev pub Answered : Result Code OrderMessage × System (World Tables) → Type 0
  Answered (err e, s) = AllSettled (λ _. 0) t s.remote.tables
  Answered (ok msg, s) =
      (k : ℕ) × (o : Order) × (find_key (λ o. o.id) k s.db.tables.orders ≡ some o)
      × (msg.id ≡ u.text o.id)
      × (msg.status ≡ status_to_proto o.status)
      × AllSettled (sold_as o.status items) t s.remote.tables

-- No saga and no reservation refers to an order that is not there.
abbrev pub Refers : Entity.Tables → Tables → Type 0
Refers td t =
    (k : ℕ)
    → find_key (λ o. o.id) k td.orders ≡ none
    → (filter (λ s. s.order_id == k) td.sagas ≡ []) × (filter (is_held_by k) t.reservations ≡ [])

module _ ⦃u : Uuids⦄ (pay : String → Result Code Unit) (has_clickhouse : Bool)
    (req : CreateOrderRequest) (t : Tables) (us : ℕ → ℕ) (n : ℕ) (c : IsConsistent t) where
  abbrev server : Server (World Tables)
  server = shop_server pay has_clickhouse

  abbrev params : List CreateOrderItemParams → CreateOrderParams
  params enriched = record {
    customer_id = req.customer_id;
    idempotency_key = req.idempotency_key;
    items = enriched;
  }

  refused_lem :
      (e : Code) (s : System (World Tables))
      → s.remote ≡ calm t us n
      → Answered req.items t (err e, s)
  refused_lem e s same =
      subst (λ (w : World Tables). AllSettled (λ _. 0) t w.tables) (sym same) (AllSettled-refl t)

  -- From an order that was just created on.
  created-Answered :
      (enriched : List CreateOrderItemParams) (o : Order) (rows : List OrderItem)
      (s : System (World Tables))
      → IsCalm s.db
      → s.remote ≡ calm t us n
      → find_key (λ o. o.id) o.id s.db.tables.orders ≡ some o
      → o.status ≡ pending
      → filter (λ s. s.order_id == o.id) s.db.tables.sagas ≡ []
      → filter (is_held_by o.id) t.reservations ≡ []
      → Answered req.items t (created server req enriched (ok (o, rows)) s)
  unfolding created cache_response order_to_proto
  created-Answered enriched o rows s h same found waits no_saga fresh =
      let input = saga_input server req enriched o in
      let start : at s.db.tables s.db.uuids s.db.now (calm t us n) s.events ≡ s =
        sym (λ i. record {
          db = record s.db { outcomes = h i };
          remote = same i;
          events = s.events;
        }) in
      let s1 = (execute server.saga input s).1 in
      let (calm1, (o', found', stock)) =
        subst
          (λ (s : System (World Tables)). Executed req.items o.id t (execute server.saga input s).1)
          start
          (execute_start-Executed ProductServer.get_product pay has_clickhouse input t us n c fresh
            s.db.tables s.db.uuids s.db.now s.events found no_saga waits) in
      let read =
        subst
          (λ (w : World Entity.Tables).
            Queries.get_order (u.text o.id) w
            ≡ (ok (o', filter (λ i. i.order_id == o.id) s1.db.tables.order_items), w))
          (sym (calm_world s1.db calm1))
          (get_order-calm (u.text o.id) o.id s1.db.tables s1.db.uuids s1.db.now (u.parse-text o.id)
            found') in
      subst
        (λ (z : Result RepositoryError (Order × List OrderItem) × World Entity.Tables).
          Answered req.items t (refetched server req enriched z.0 (record s1 { db = z.1 })))
        (sym read) (o.id, o', found', refl, refl, stock)

  -- From the answer of the repository on.
  made-Answered :
      (enriched : List CreateOrderItemParams) (r : Result RepositoryError (Order × List OrderItem))
      (td : Entity.Tables) (s : System (World Tables))
      → IsCalm s.db
      → s.remote ≡ calm t us n
      → Refers td t
      → OnError not_duplicate r
      → ((o : Order) (rows : List OrderItem)
          → r ≡ ok (o, rows)
          → Created (params enriched) o rows td s.db.tables)
      → Answered req.items t (created server req enriched r s)
  unfolding created
  made-Answered enriched (err (RepositoryError.duplicate_order o items)) td s h same refs no_key
        made =
      absurd (ground (arith, no_key))
  made-Answered enriched (err _) td s h same refs no_key made = refused_lem Code.internal s same
  made-Answered enriched (ok (o, rows)) td s h same refs no_key made =
      let m = made o rows refl in
      let (no_saga, fresh) = refs o.id m.fresh in
      created-Answered enriched o rows s h same
        (subst (λ (os : List Order). find_key (λ o. o.id) o.id os ≡ some o) (sym m.orders)
          (find_key-last (λ o. o.id) td.orders o m.fresh))
        m.status
        (subst (λ (ss : List SagaState). filter (λ s. s.order_id == o.id) ss ≡ []) (sym m.sagas)
          no_saga)
        fresh

  -- The look-ups, and the creation behind them.
  unless_cached-Answered :
      (s : System (World Tables))
      → IsCalm s.db
      → s.remote ≡ calm t us n
      → Refers s.db.tables t
      → taken_key (null_string req.idempotency_key) s.db.tables.orders ≡ none
      → Answered req.items t (unless_cached server req none s)
  unless_cached-Answered s h same refs free =
      let looked = look_up_products server req.items s in
      let (still, same') =
        look_up_products-Untouched pay has_clickhouse s.db t us n req.items s (refl, same) in
      let create = λ (enriched : List CreateOrderItemParams).
        attempt (on_db (Repository.create_order (params enriched))) (created server req enriched) in
      elim (Result-cases looked.0) [
        | inr (e, failed) ↦
            subst (Answered req.items t)
              (sym
                (>>=-err (look_up_products server req.items) create s (with_state looked failed)))
              (refused_lem e looked.1 same')
        | inl (enriched, ended) ↦
            let made = Repository.create_order (params enriched) looked.1.db in
            let calm1 : IsCalm looked.1.db = subst IsCalm (sym still) h in
            subst (Answered req.items t)
              (sym (>>=-ok (look_up_products server req.items) create s (with_state looked ended)))
              (made-Answered enriched made.0 looked.1.db.tables (record looked.1 { db = made.1 })
                (create_order-IsCalm (params enriched) looked.1.db calm1) same'
                (subst (λ (w : World Entity.Tables). Refers w.tables t) (sym still) refs)
                (subst
                  (λ (w : World Entity.Tables).
                    OnError not_duplicate (Repository.create_order (params enriched) w).0)
                  (sym (calm_world looked.1.db calm1))
                  (create_order-Raises (params enriched) looked.1.db.tables looked.1.db.uuids
                    looked.1.db.now
                    (subst
                      (λ (w : World Entity.Tables).
                        taken_key (null_string req.idempotency_key) w.tables.orders ≡ none)
                      (sym still) free)))
                (λ o rows e. create_order-Created (params enriched) looked.1.db e))
      ]

  with_items_of-Answered :
      (items : List StockItem) (s : System (World Tables))
      → IsCalm s.db
      → s.remote ≡ calm t us n
      → Refers s.db.tables t
      → taken_key (null_string req.idempotency_key) s.db.tables.orders ≡ none
      → Answered req.items t (with_items_of server req items s)
  unfolding cached_response
  with_items_of-Answered [] s h same refs free = refused_lem Code.invalid_argument s same
  with_items_of-Answered (item ∷ items) s h same refs free =
      unless_cached-Answered s h same refs free

  -- A checkout through all three layers, order server, saga and inventory: if CreateOrder answers
  -- with an order, the answer shows the row of that order, and the available stock has fallen by
  -- what the items ask for if its status is completed, and not at all if it is not; if it answers
  -- with an error, nothing was taken. As much is reserved as before in all cases. Both databases
  -- answer, whatever the payment processor says; the inventory is consistent; the request's key is
  -- new; and no saga or reservation refers to an order that does not exist.
  pub create_order-Answered :
      (s : System (World Tables))
      → s.db.outcomes ≡ []
      → s.remote ≡ calm t us n
      → ((k : ℕ)
          → find_key (λ o. o.id) k s.db.tables.orders ≡ none
          → (filter (λ s. s.order_id == k) s.db.tables.sagas ≡ [])
            × (filter (is_held_by k) t.reservations ≡ []))
      → taken_key (null_string req.idempotency_key) s.db.tables.orders ≡ none
      → Answered req.items t (create_order (shop_server pay has_clickhouse) req s)
  unfolding create_order
  create_order-Answered s h same refs free = elim (Bool-cases (is_empty req.customer_id)) [
    | inl no_one ↦ rw no_one (refused_lem Code.invalid_argument s same)
    | inr someone ↦ rw someone (with_items_of-Answered req.items s h same refs free)
  ]
