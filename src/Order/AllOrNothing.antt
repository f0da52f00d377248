-- ===== src/Order/AllOrNothing.antt =====
-- A saga and the inventory service together: what is in stock after it.
use mathlib.Core.Path.{subst}
use micromart.Prelude.{
  ℕ, String, ◌≡◌, refl, sym, ap, ◌∙◌, ◌⊎◌, inl, inr, Bool, false, some, List, [], arith, filter,
  Option-cases, List-cases,
}
use micromart.Prelude.Text.{is_empty}
use micromart.Prelude.Exec.{Exec, Result, ok, err}
use micromart.Sql.{World, Uuids, calm}
use micromart.Grpc.Status.{Code}
use micromart.Grpc.Inventory.{InventoryClient, ProductMessage}
use micromart.Inventory.Entity.{Tables, find_product}
use micromart.Inventory.Stock
use micromart.Inventory.Stock.{StockItem, is_held_by}
use micromart.Inventory.StockServer
use micromart.Inventory.StockServer.{check_reserve}
use micromart.Inventory.Holdings.{total}
use micromart.Inventory.Updates.{Both-refl}
use micromart.Inventory.Consistency.{IsConsistent, reserve_stock-IsConsistent}
use micromart.Inventory.Calm.{
  release_stock-calm, decrement_stock-calm, release_stock_again, decrement_stock_again,
}
use micromart.Inventory.CalmReserve.{reserve_stock-calm}
use micromart.Inventory.Effects.{demand, Falls}
use micromart.Inventory.Closing.{Closes, taken}
use micromart.Inventory.RoundTrip.{
  Settled, AllSettled, Closes-AllSettled, release-reserve, decrement-reserve,
}
use micromart.Order.Saga.{Orchestrator, SagaInput, SagaError, run_steps}
use micromart.Order.SagaCalls.{after_confirm, after_payment, saga_calls, run_steps-calls}
use micromart.Order.System.{System}

-- The inventory service's handlers, called without a network between.
abbrev pub in_process :
    ⦃u : Uuids⦄
    → (String → Exec (World Tables) Code ProductMessage)
    → InventoryClient (World Tables)
in_process get_product = record {
  get_product = get_product;
  reserve_stock = StockServer.reserve_stock;
  release_stock = StockServer.release_stock;
  decrement_stock = StockServer.decrement_stock;
}

pub AllSettled-refl : (t : Tables) → AllSettled (λ _. 0) t t
AllSettled-refl t j = Both-refl (Settled 0) (λ p. (ground arith, refl)) (find_product j t.products)

Closes-none :
    (leaves : Bool) (o : ℕ) (t : Tables)
    → filter (is_held_by o) t.reservations ≡ []
    → Closes leaves o t t
unfolding total
Closes-none leaves o t rows = record {
  stock = λ j.
      rw rows (Both-refl (Falls (taken leaves 0)) (λ p. ground arith) (find_product j t.products));
  counted = λ j. rw rows (omega arith);
}

module _ ⦃u : Uuids⦄ (id : String) (o : ℕ) (items : List StockItem) (t t' : Tables) (us us' : ℕ → ℕ)
    (n : ℕ) (po : u.parse id ≡ some o) (some_id : is_empty id ≡ false) (c : IsConsistent t)
    (fresh : filter (is_held_by o) t.reservations ≡ [])
    (taken_up : Stock.reserve_stock id items (calm t us n) ≡ (ok id, calm t' us' n)) where
  reserved_ok : (Stock.reserve_stock id items (calm t us n)).0 ≡ ok id
  reserved_ok i = (taken_up i).0

  world_after : (Stock.reserve_stock id items (calm t us n)).1 ≡ calm t' us' n
  world_after i = (taken_up i).1

  IsConsistent-after : IsConsistent t'
  IsConsistent-after =
      subst (λ (w : World Tables). IsConsistent w.tables) world_after
        (reserve_stock-IsConsistent id items (calm t us n) c)

  nothing_left : filter (is_held_by o) t'.reservations ≡ [] → AllSettled (λ _. 0) t t'
  nothing_left rows =
      Closes-AllSettled id o items (calm t us n) po c fresh reserved_ok false t' IsConsistent-after
        (subst (λ (w : World Tables). Closes false o w.tables t') (sym world_after)
          (Closes-none false o t' rows))

  -- A release after the reservation gives everything back.
  release_after : AllSettled (λ _. 0) t (StockServer.release_stock id (calm t' us' n)).1.tables
  unfolding StockServer.release_stock
  release_after = elim (List-cases (filter (is_held_by o) t'.reservations)) [
    | inl rows ↦ rw (some_id, release_stock_again id o po t' us' n rows) (nothing_left rows)
    | inr (r, rs, rows) ↦
        let (t'', e) = release_stock-calm id o po t' us' n IsConsistent-after rows in
        rw some_id (
          subst (λ (w : World Tables). AllSettled (λ _. 0) t (Stock.release_stock id w).1.tables)
            world_after
            (release-reserve id o items (calm t us n) po c fresh reserved_ok (
              ap (λ (w : World Tables). (Stock.release_stock id w).0) world_after
              ∙ (λ i. (e i).0))))
  ]

  -- A decrement after it takes what was asked for out of stock, or is refused and changes nothing.
  decrement_after :
      let (x, w) = StockServer.decrement_stock id (calm t' us' n) in
      ((x ≡ ok tt) × AllSettled (λ j. demand j items) t w.tables)
      ⊎ ((e : Code) × (x ≡ err e) × (w ≡ calm t' us' n))
  unfolding StockServer.decrement_stock
  decrement_after = elim (List-cases (filter (is_held_by o) t'.reservations)) [
    | inl rows ↦
        inr (rw (some_id, decrement_stock_again id o po t' us' n rows) (Code.not_found, refl, refl))
    | inr (r, rs, rows) ↦
        let (t'', e) = decrement_stock-calm id o po t' us' n IsConsistent-after rows in
        inl (
          rw (some_id, e)
            (
              refl,
              subst (λ (w : World Tables). AllSettled (λ j. demand j items) t w.tables)
                  (ap (λ (w : World Tables). (Stock.decrement_stock id w).1) world_after
                    ∙ (λ i. (e i).1))
                  (decrement-reserve id o items (calm t us n) po c fresh reserved_ok (
                    ap (λ (w : World Tables). (Stock.decrement_stock id w).0) world_after
                    ∙ (λ i. (e i).0))),
            ))
  ]

-- What a saga that ended so has taken out of stock: all that was asked for, or nothing.
abbrev pub sold : ⦃u : Uuids⦄ → Result SagaError Unit → List StockItem → ℕ → ℕ
sold (ok _) items j = demand j items
sold (err e) items j = 0

-- The orchestrator with a payment processor that leaves the inventory alone.
abbrev pub shop_saga :
    ⦃u : Uuids⦄
    → (String → Exec (World Tables) Code ProductMessage)
    → (String → Result Code Unit)
    → Bool
    → Orchestrator (World Tables)
shop_saga get_product pay has_clickhouse = record {
  client = in_process get_product;
  process_payment = λ order w. (pay order, w);
  has_clickhouse = has_clickhouse;
}

module _ ⦃u : Uuids⦄ (get_product : String → Exec (World Tables) Code ProductMessage)
    (pay : String → Result Code Unit) (has_clickhouse : Bool) (input : SagaInput) (t : Tables)
    (us : ℕ → ℕ) (n : ℕ) (c : IsConsistent t)
    (fresh : filter (is_held_by input.order_id) t.reservations ≡ []) where
  abbrev order_text : String
  order_text = u.text input.order_id

  abbrev Sells : Result SagaError Unit × World Tables → Type 0
  Sells (x, w) = AllSettled (sold x input.items) t w.tables

  module _ (t' : Tables) (us' : ℕ → ℕ)
      (taken_up : Stock.reserve_stock order_text input.items (calm t us n)
        ≡ (ok order_text, calm t' us' n)) where
    undone : AllSettled (λ _. 0) t (StockServer.release_stock order_text (calm t' us' n)).1.tables
    undone =
        release_after order_text input.order_id input.items t t' us us' n
          (u.parse-text input.order_id) (u.is_empty-text input.order_id) c fresh taken_up

    after_confirm-Sells : Sells (
        after_confirm
          (shop_saga get_product pay has_clickhouse)
          order_text
          (StockServer.decrement_stock order_text (calm t' us' n)))
    after_confirm-Sells =
        elim (decrement_after order_text input.order_id input.items t t' us us' n
          (u.parse-text input.order_id) (u.is_empty-text input.order_id) c fresh taken_up) [
            | inl (went, settled) ↦ rw went settled
            | inr (e, refused, same) ↦ rw (refused, same, u.is_empty-text input.order_id) undone
          ]

    after_payment-Sells :
        (x : Result Code Unit)
        → Sells
            (after_payment (shop_saga get_product pay has_clickhouse) order_text (x, calm t' us' n))
    after_payment-Sells (ok _) = after_confirm-Sells
    after_payment-Sells (err e) = rw (u.is_empty-text input.order_id) undone

  saga_calls-Sells :
      Sells (saga_calls (shop_saga get_product pay has_clickhouse) input (calm t us n))
  unfolding StockServer.reserve_stock
  saga_calls-Sells = elim (Option-cases (check_reserve order_text input.items)) [
    | inl passed ↦ elim (reserve_stock-calm order_text input.items t us n) [
      | inl (t', us', e) ↦ rw (passed, e) (after_payment-Sells t' us' e (pay order_text))
      | inr (x, us', e) ↦ rw (passed, e) (AllSettled-refl t)
    ]
    | inr (code, refused) ↦ rw refused (AllSettled-refl t)
  ]

  -- A saga that returned no error has taken what its items ask for out of the available stock; one
  -- that failed, at whatever step, has taken nothing. As much is reserved as before in both cases.
  -- The saga's own database may fail as it will; the inventory's answers, its tables are
  -- consistent and have nothing reserved for the order yet.
  pub run_steps-AllSettled :
      (saga_id : ℕ) (s : System (World Tables))
      → s.remote ≡ calm t us n
      → let (x, s') = run_steps (shop_saga get_product pay has_clickhouse) input saga_id s in
        AllSettled (sold x input.items) t s'.remote.tables
  run_steps-AllSettled saga_id s start =
      subst Sells
        (sym (
          run_steps-calls (shop_saga get_product pay has_clickhouse) input saga_id s
          ∙ ap (saga_calls (shop_saga get_product pay has_clickhouse) input) start))
        saga_calls-Sells
