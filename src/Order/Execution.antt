-- ===== src/Order/Execution.antt =====
-- Execute, from an order that is there and has no saga yet: its order, the stock, and the state of
-- its database.
use mathlib.Core.Path.{subst}
use micromart.Prelude.{
  ℕ, suc, String, ◌≡◌, refl, sym, ◌∙◌, ap, Bool, true, false, none, some, List, [], ◌∷◌, ◌++◌,
  filter, ◌==◌, Option-cases, inl, inr, if◌then◌else◌,
}
use micromart.Prelude.Exec.{Exec, ◌>>=◌, Result, ok, err, >>=-ok, >>=-err}
use micromart.Sql.{World, Uuids, calm, statement}
use micromart.Sql.Keys.{find_key, find_key-last}
use micromart.Grpc.Status.{Code}
use micromart.Grpc.Inventory.{ProductMessage}
use micromart.Inventory.Entity.{Tables}
use micromart.Inventory.Stock.{StockItem, is_held_by}
use micromart.Inventory.Consistency.{IsConsistent}
use micromart.Inventory.Effects.{demand}
use micromart.Inventory.RoundTrip.{AllSettled}
use micromart.Order.Entity
use micromart.Order.Entity.{Order, OrderStatus, SagaState, reserve_inventory, in_progress, pending}
use micromart.Order.SagaRows.{latest, insert_saga}
use micromart.Order.System.{System, OrderEvent}
use micromart.Order.Saga.{
  SagaInput, SagaError, create_state, saga_failed, execute, get_existing_saga, create_saga_state,
  run_steps, unless_existing,
}
use micromart.Order.SagaOutcome.{Settled, at, run_steps-Settled}
use micromart.Order.CalmSaga.{IsCalm, run_steps-IsCalm}
use micromart.Order.AllOrNothing.{shop_saga, sold, run_steps-AllSettled, AllSettled-refl}

abbrev pub is_completed : OrderStatus → Bool
is_completed OrderStatus.completed = true
is_completed _ = false

-- What an order with this status has taken out of stock: all that it asked for, or nothing.
abbrev pub sold_as : ⦃u : Uuids⦄ → OrderStatus → List StockItem → ℕ → ℕ
sold_as st items j = if is_completed st then demand j items else 0

module _ ⦃u : Uuids⦄ (items : List StockItem) (k : ℕ) (t : Tables) where
  -- The database answers, the order is there, and the stock agrees with its status.
  abbrev pub Executed : System (World Tables) → Type 0
  Executed s =
      IsCalm s.db
      × ((o : Order) × (find_key (λ o. o.id) k s.db.tables.orders ≡ some o)
          × AllSettled (sold_as o.status items) t s.remote.tables)

  Settled-Executed :
      (g : ℕ) (x : Result SagaError Unit) (s : System (World Tables))
      → Settled k g x s.db.tables
      → AllSettled (sold x items) t s.remote.tables
      → IsCalm s.db
      → Executed s
  Settled-Executed g (ok a) s ((o, found, st), saga) stock h = (
    h,
    (
      o,
      found,
      subst (λ (st : OrderStatus). AllSettled (sold_as st items) t s.remote.tables) (sym st) stock,
    ),
  )
  Settled-Executed g (err (saga_failed why)) s ((o, found, st), saga) stock h = (
    h,
    (
      o,
      found,
      subst (λ (st : OrderStatus). AllSettled (sold_as st items) t s.remote.tables) (sym st) stock,
    ),
  )
  Settled-Executed g (err SagaError.check_existing) s never stock h = absurd never
  Settled-Executed g (err SagaError.create_state) s never stock h = absurd never
  Settled-Executed g (err SagaError.query_sagas) s never stock h = absurd never

-- The row that create_saga_state inserts.
abbrev new_saga : ℕ → ℕ → ℕ → SagaState
new_saga g order_id n = record {
  id = g;
  order_id = order_id;
  current_step = reserve_inventory;
  status = in_progress;
  reservation_id = none;
  failure_reason = none;
  created_at = n;
  updated_at = n;
}

module _ ⦃u : Uuids⦄ (get_product : String → Exec (World Tables) Code ProductMessage)
    (pay : String → Result Code Unit) (has_clickhouse : Bool) (input : SagaInput) (t : Tables)
    (us_r : ℕ → ℕ) (n_r : ℕ) (c : IsConsistent t)
    (fresh : filter (is_held_by input.order_id) t.reservations ≡ []) (td : Entity.Tables)
    (us : ℕ → ℕ) (n : ℕ) (ev : List OrderEvent) {o : Order}
    (found : find_key (λ o. o.id) input.order_id td.orders ≡ some o) where
  abbrev start : System (World Tables)
  start = at td us n (calm t us_r n_r) ev

  -- From the saga's row on.
  steps-Executed :
      find_key (λ s. s.id) (us 0) td.sagas ≡ none
      → let begun_tables = record td {
        sagas = td.sagas ++ new_saga (us 0) input.order_id n ∷ [];
      } in
        Executed input.items input.order_id t
          (run_steps
            (shop_saga get_product pay has_clickhouse)
            input
            (us 0)
            (at begun_tables (λ m. us (suc m)) n (calm t us_r n_r) ev)).1
  steps-Executed free =
      let begun_tables = record td { sagas = td.sagas ++ new_saga (us 0) input.order_id n ∷ [] } in
      let s = at begun_tables (λ m. us (suc m)) n (calm t us_r n_r) ev in
      let saga = shop_saga get_product pay has_clickhouse in
      let ran = run_steps saga input (us 0) s in
      Settled-Executed input.items input.order_id t (us 0) ran.0 ran.1
        (run_steps-Settled saga input (us 0) (λ m. us (suc m)) n begun_tables (calm t us_r n_r) ev
          (
            (o.status, (o, found, refl)),
            (
              in_progress,
              (
                new_saga (us 0) input.order_id n,
                find_key-last (λ s. s.id) td.sagas (new_saga (us 0) input.order_id n) free,
                refl,
              ),
            ),
          ))
        (run_steps-AllSettled get_product pay has_clickhouse input t us_r n_r c fresh (us 0) s refl)
        (run_steps-IsCalm saga input (us 0) s refl)

  get_existing_saga-none :
      filter (λ s. s.order_id == input.order_id) td.sagas ≡ []
      → get_existing_saga input.order_id start ≡ (ok none, start)
  unfolding get_existing_saga statement latest
  get_existing_saga-none none_yet = ap (λ rows. (ok (latest rows), start)) none_yet

  create_saga_state-taken :
      {s : SagaState}
      → find_key (λ s. s.id) (us 0) td.sagas ≡ some s
      → create_saga_state input.order_id start ≡ (err create_state, start)
  unfolding create_saga_state statement insert_saga
  create_saga_state-taken taken = rw taken refl

  create_saga_state-free :
      find_key (λ s. s.id) (us 0) td.sagas ≡ none
      → create_saga_state input.order_id start ≡ (
        ok (us 0),
        at
            (record td { sagas = td.sagas ++ new_saga (us 0) input.order_id n ∷ [] })
            (λ m. us (suc m))
            n
            (calm t us_r n_r)
            ev,
      )
  unfolding create_saga_state statement insert_saga
  create_saga_state-free free = rw (free, found) refl

  -- From the look for an earlier saga on.
  pub execute_start-Executed :
      filter (λ s. s.order_id == input.order_id) td.sagas ≡ []
      → o.status ≡ pending
      → Executed input.items input.order_id t
          (execute (shop_saga get_product pay has_clickhouse) input start).1
  unfolding execute
  execute_start-Executed none_yet waits =
      let saga = shop_saga get_product pay has_clickhouse in
      let steps = run_steps saga input in
      let begins : execute saga input start ≡ (create_saga_state input.order_id >>= steps) start =
        >>=-ok (get_existing_saga input.order_id) (unless_existing saga input) start {a = none}
          {t = start} (get_existing_saga-none none_yet) in
      let done = λ (r : Result SagaError Unit × System (World Tables)).
        Executed input.items input.order_id t r.1 in
      elim (Option-cases (find_key (λ s. s.id) (us 0) td.sagas)) [
        | inl free ↦
            subst done
              (sym (
                begins
                ∙ >>=-ok (create_saga_state input.order_id) steps start {a = us 0}
                    (create_saga_state-free free)))
              (steps-Executed free)
        | inr (s, taken) ↦
            subst done
              (sym (
                begins
                ∙ >>=-err (create_saga_state input.order_id) steps start
                    (create_saga_state-taken taken)))
              (
                refl,
                (
                  o,
                  found,
                  subst (λ (st : OrderStatus). AllSettled (sold_as st input.items) t t) (sym waits)
                      (AllSettled-refl t),
                ),
              )
      ]
