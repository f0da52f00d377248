-- ===== src/Inventory/Stock.antt =====
-- services/inventory/stock_repository.go. The row locks (FOR UPDATE) make the transactions on a
-- product run one after another, and so each is one step here.
use micromart.Prelude.{
  ℕ, String, Bool, ◌&&◌, Option, none, some, List, [], ◌∷◌, ◌++◌, ◌==◌, if◌then◌else◌, filter,
}
use micromart.Prelude.Int.{ℤ, pos, ◌+ℤ◌, ◌-ℤ◌, ltb_ℤ, wrap32}
use micromart.Prelude.Exec.{Exec, pure, raise, ◌>>=◌, ◌>>◌}
use micromart.Sql.{World, Uuids, statement, transaction, draw_uuid}
use micromart.Sql.Tables.{check_int, check_positive, and_then, update_all}
use micromart.Sql.Keys.{find_key, update_key}
use micromart.Inventory.Entity.{
  Product, StockReservation, ReservationStatus, reserved, released, decremented, is_reserved,
  Tables, Error, not_found, insufficient_stock, invalid_reservation, other, find_product,
}

pub record StockItem : Type 0 where
  pub product_id : String
  pub quantity : ℤ  -- int32

-- SET stock_reserved = stock_reserved + q, updated_at = NOW()
abbrev pub reserve_more : ℤ → ℕ → Product → Option Product
reserve_more q now p =
    and_then (check_int (pos p.stock_reserved +ℤ q))
      λ r. some (record p { stock_reserved = r; updated_at = now })

-- SET stock_reserved = stock_reserved - q, updated_at = NOW()
abbrev pub reserve_less : ℕ → ℕ → Product → Option Product
reserve_less q now p =
    and_then (check_int (pos p.stock_reserved -ℤ pos q))
      λ r. some (record p { stock_reserved = r; updated_at = now })

-- SET stock_available = stock_available - q, stock_reserved = stock_reserved - q, updated_at = NOW()
abbrev pub take_stock : ℕ → ℕ → Product → Option Product
take_stock q now p = and_then (check_int (pos p.stock_available -ℤ pos q)) λ a.
    and_then (check_int (pos p.stock_reserved -ℤ pos q))
      λ r. some (record p { stock_available = a; stock_reserved = r; updated_at = now })

abbrev pub set_products : World Tables → List Product → Option (Unit {0} × World Tables)
set_products w ps = some (tt, record w { tables = record w.tables { products = ps } })

-- UPDATE products ... WHERE id = k
unfoldable pub update_product :
    ℕ → (ℕ → Product → Option Product) → World Tables → Option (Unit {0} × World Tables)
update_product k set w =
    and_then (update_key (λ p. p.id) k (set w.now) w.tables.products) (set_products w)

-- WHERE order_id = o AND status = 'RESERVED'
abbrev pub is_held_by : ℕ → StockReservation → Bool
is_held_by o r = r.order_id == o && is_reserved r.status

abbrev pub insert_row : StockReservation → World Tables → Option (Unit {0} × World Tables)
insert_row row w =
    some (
      tt,
      record w { tables = record w.tables { reservations = w.tables.reservations ++ row ∷ [] } },
    )

-- A row is refused if its id is taken, or if there is no product for it.
abbrev pub admit :
    Option StockReservation
    → Option Product
    → StockReservation
    → World Tables
    → Option (Unit {0} × World Tables)
admit none (some p) row w = insert_row row w
admit none none row w = none
admit (some r) p row w = none

-- INSERT INTO stock_reservations (order_id, product_id, quantity, status)
unfoldable pub insert_reservation :
    ℕ → ℕ → ℤ → ReservationStatus → World Tables → Option (Unit {0} × World Tables)
insert_reservation o k q st w = and_then (check_positive q) λ n.
    let id = w.uuids 0 in
    admit (find_key (λ r. r.id) id w.tables.reservations) (find_product k w.tables.products)
      (record {
        id = id;
        order_id = o;
        product_id = k;
        quantity = n;
        status = st;
        created_at = w.now;
        updated_at = w.now;
      })
      (draw_uuid w)

abbrev pub or_not_found : Option Product → Exec (World Tables) Error Product
or_not_found none = raise not_found
or_not_found (some p) = pure p

-- `len(reservations) == 0`
abbrev pub or_invalid : List StockReservation → Exec (World Tables) Error Unit
or_invalid [] = raise invalid_reservation
or_invalid (r ∷ rs) = pure tt

-- UPDATE stock_reservations SET status = st ... WHERE order_id = o AND status = 'RESERVED'
unfoldable pub mark : ℕ → ReservationStatus → World Tables → Option (Unit {0} × World Tables)
mark o st w = some (
  tt,
  record w {
    tables = record w.tables {
      reservations =
          update_all (is_held_by o) (λ r. record r { status = st; updated_at = w.now })
            w.tables.reservations;
    };
  },
)

-- The loop over the reservations, with the UPDATE that it makes for each.
unfoldable pub update_each :
    (ℕ → ℕ → Product → Option Product) → List StockReservation → Exec (World Tables) Error Unit
update_each set [] = pure tt
update_each set (r ∷ rs) =
    statement other (update_product r.product_id (set r.quantity)) >> update_each set rs

-- `available < item.Quantity`
abbrev pub is_short : Product → ℤ → Bool
is_short product quantity =
    ltb_ℤ (wrap32 (pos product.stock_available -ℤ pos product.stock_reserved)) quantity

module _ ⦃u : Uuids⦄ where
  -- SELECT * FROM products WHERE id = $1 FOR UPDATE
  unfoldable pub lock_product : String → Exec (World Tables) Error (Option Product)
  lock_product product_id =
      statement other
        λ w. and_then (u.parse product_id) λ k. some (find_product k w.tables.products, w)

  unfoldable pub add_reserved : StockItem → Exec (World Tables) Error Unit
  add_reserved item =
      statement other
        λ w. and_then (u.parse item.product_id) λ k. update_product k (reserve_more item.quantity) w

  unfoldable pub record_reserved : String → StockItem → Exec (World Tables) Error Unit
  record_reserved order_id item = statement other λ w.
      and_then (u.parse order_id)
        λ o. and_then (u.parse item.product_id) λ k. insert_reservation o k item.quantity reserved w

  abbrev pub reserve_locked : String → StockItem → Product → Exec (World Tables) Error Unit
  reserve_locked order_id item product =
      if is_short product item.quantity
      then raise insufficient_stock
      else (add_reserved item >> record_reserved order_id item)

  -- One round of the loop of ReserveStock.
  unfoldable pub reserve_item : String → StockItem → Exec (World Tables) Error Unit
  reserve_item order_id item = do
    found ← lock_product item.product_id
    product ← or_not_found found
    reserve_locked order_id item product

  unfoldable pub reserve_items : String → List StockItem → Exec (World Tables) Error Unit
  reserve_items order_id [] = pure tt
  reserve_items order_id (item ∷ items) = reserve_item order_id item >> reserve_items order_id items

  -- (r *Repository) ReserveStock
  unfoldable pub reserve_stock : String → List StockItem → Exec (World Tables) Error String
  reserve_stock order_id items = transaction other (reserve_items order_id items >> pure order_id)

  -- SELECT * FROM stock_reservations WHERE order_id = $1 AND status = 'RESERVED' FOR UPDATE
  unfoldable pub select_held : String → Exec (World Tables) Error (List StockReservation)
  select_held id =
      statement other
        λ w. and_then (u.parse id) λ o. some (filter (is_held_by o) w.tables.reservations, w)

  unfoldable pub close_rows : ReservationStatus → String → Exec (World Tables) Error Unit
  close_rows st id = statement other λ w. and_then (u.parse id) λ o. mark o st w

  -- What ReleaseStock and DecrementStock have in common.
  abbrev pub settle_rows :
      (ℕ → ℕ → Product → Option Product)
      → ReservationStatus
      → String
      → List StockReservation
      → Exec (World Tables) Error Unit
  settle_rows set st id reservations = do
    or_invalid reservations
    update_each set reservations
    close_rows st id

  abbrev pub settle :
      (ℕ → ℕ → Product → Option Product)
      → ReservationStatus
      → String
      → Exec (World Tables) Error Unit
  settle set st id = do reservations ← select_held id; settle_rows set st id reservations

  -- (r *Repository) ReleaseStock
  unfoldable pub release_stock : String → Exec (World Tables) Error Unit
  release_stock reservation_id = transaction other (settle reserve_less released reservation_id)

  -- (r *Repository) DecrementStock
  unfoldable pub decrement_stock : String → Exec (World Tables) Error Unit
  decrement_stock reservation_id = transaction other (settle take_stock decremented reservation_id)
