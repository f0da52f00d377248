-- ===== src/Order/Repository.antt =====
-- services/order/order_repository.go, CreateOrder. The texts of the errors are
-- left out, and so is where a key or a customer's name is too long for its column: to the code
-- this is one more failed call.
use micromart.Prelude.{
  ℕ, String, Bool, false, Option, none, some, List, [], ◌∷◌, ◌++◌, ◌==◌, if◌then◌else◌, filter,
  find?,
}
use micromart.Prelude.Int.{ℤ, pos, ◌+ℤ◌, ◌*ℤ◌, wrap64}
use micromart.Prelude.Text.{is_empty, str_eq}
use micromart.Prelude.Exec.{Exec, pure, raise, ◌>>=◌}
use micromart.Sql.{World, Uuids, statement, transaction, draw_uuid}
use micromart.Sql.Tables.{check_positive, check_bigint, and_then}
use micromart.Sql.Keys.{find_key}
use micromart.Order.Entity.{Order, OrderItem, pending, Tables}

pub record CreateOrderItemParams : Type 0 where
  pub product_id : String
  pub quantity : ℤ  -- int32
  pub unit_price_cents : ℤ  -- int64
  pub product_name : String

pub record CreateOrderParams : Type 0 where
  pub customer_id : String
  pub idempotency_key : String
  pub items : List CreateOrderItemParams

-- The errors of the repository. ErrDuplicateOrder comes with the order that is there; a status
-- that stands in the way of a cancellation is an error of its own.
pub data RepositoryError : Type 0 where
  not_found wrong_status other : RepositoryError
  duplicate_order : Order → List OrderItem → RepositoryError

-- The loop that adds up the prices, in int64.
unfoldable pub add_prices : ℤ → List CreateOrderItemParams → ℤ
add_prices total_cents [] = total_cents
add_prices total_cents (item ∷ items) =
    add_prices (wrap64 (total_cents +ℤ wrap64 (item.unit_price_cents *ℤ item.quantity))) items

-- WHERE idempotency_key = key
abbrev pub key_is : String → Option String → Bool
key_is key none = false
key_is key (some k) = str_eq k key

abbrev pub find_by_key : String → List Order → Option Order
find_by_key key os = find? (λ o. key_is key o.idempotency_key) os

-- sql.NullString
abbrev pub null_string : String → Option String
null_string key = if is_empty key then none else some key

-- The row that a key must not have in a UNIQUE column; NULL is equal to nothing.
abbrev pub taken_key : Option String → List Order → Option Order
taken_key none os = none
taken_key (some key) os = find_by_key key os

abbrev pub put_order :
    Option Order → Option Order → Order → World Tables → Option (Order × World Tables)
put_order none none order w = some (
  order,
  record (draw_uuid w) { tables = record w.tables { orders = w.tables.orders ++ order ∷ [] } },
)
put_order none (some o) order w = none
put_order (some o) key order w = none

-- INSERT INTO orders (customer_id, status, total_cents, idempotency_key) ... RETURNING *
unfoldable pub insert_order :
    String → ℤ → Option String → World Tables → Option (Order × World Tables)
insert_order customer_id total_cents key w =
    put_order (find_key (λ o. o.id) (w.uuids 0) w.tables.orders) (taken_key key w.tables.orders)
      (record {
        id = w.uuids 0;
        customer_id = customer_id;
        status = pending;
        total_cents = total_cents;
        idempotency_key = key;
        created_at = w.now;
        updated_at = w.now;
      })
      w

abbrev pub put_item :
    Option OrderItem → Option Order → OrderItem → World Tables → Option (OrderItem × World Tables)
put_item none (some o) item w = some (
  item,
  record (draw_uuid w) {
    tables = record w.tables { order_items = w.tables.order_items ++ item ∷ [] };
  },
)
put_item none none item w = none
put_item (some i) o item w = none

abbrev pub put_new_item : ℕ → ℕ → ℕ → ℕ → World Tables → Option (OrderItem × World Tables)
put_new_item order_id product_id quantity unit_price_cents w =
    put_item (find_key (λ i. i.id) (w.uuids 0) w.tables.order_items)
      (find_key (λ o. o.id) order_id w.tables.orders)
      (record {
        id = w.uuids 0;
        order_id = order_id;
        product_id = product_id;
        quantity = quantity;
        unit_price_cents = unit_price_cents;
        created_at = w.now;
      })
      w

-- INSERT INTO order_items (order_id, product_id, quantity, unit_price_cents) ... RETURNING *
unfoldable pub insert_order_item :
    ⦃u : Uuids⦄ → ℕ → CreateOrderItemParams → World Tables → Option (OrderItem × World Tables)
insert_order_item ⦃u⦄ order_id item w = and_then (u.parse item.product_id) λ k.
    and_then (check_positive item.quantity)
      λ q. and_then (check_bigint item.unit_price_cents) λ c. put_new_item order_id k q c w

-- SELECT * FROM order_items WHERE order_id = k ORDER BY created_at: the items of an order are
-- inserted in one transaction and have one time, and come in the order of their insertion.
unfoldable pub select_items : ℕ → Exec (World Tables) RepositoryError (List OrderItem)
select_items k = statement other λ w. some (filter (λ i. i.order_id == k) w.tables.order_items, w)

-- SELECT * FROM orders WHERE idempotency_key = key
unfoldable pub select_by_key : String → Exec (World Tables) RepositoryError (Option Order)
select_by_key key = statement other λ w. some (find_by_key key w.tables.orders, w)

abbrev pub existing_order : String → Exec (World Tables) RepositoryError (Option Order)
existing_order key = if is_empty key then pure none else select_by_key key

module _ ⦃u : Uuids⦄ where
  -- The loop over the items, which returns their rows.
  unfoldable pub insert_items :
      ℕ → List CreateOrderItemParams → Exec (World Tables) RepositoryError (List OrderItem)
  insert_items order_id [] = pure []
  insert_items order_id (item ∷ items) = do
    row ← statement other (insert_order_item order_id item)
    rows ← insert_items order_id items
    pure (row ∷ rows)

  abbrev pub insert_all :
      CreateOrderParams → Order → Exec (World Tables) RepositoryError (Order × List OrderItem)
  insert_all p order = insert_items order.id p.items >>= λ items. pure (order, items)

  abbrev pub create_new :
      CreateOrderParams → Exec (World Tables) RepositoryError (Order × List OrderItem)
  create_new p =
      statement other
        (insert_order p.customer_id (add_prices (pos 0) p.items) (null_string p.idempotency_key))
      >>= insert_all p

  abbrev pub unless_duplicate :
      CreateOrderParams
      → Option Order
      → Exec (World Tables) RepositoryError (Order × List OrderItem)
  unless_duplicate p (some existing) =
      select_items existing.id >>= λ items. raise (duplicate_order existing items)
  unless_duplicate p none = create_new p

  -- (r *Repository) CreateOrder
  unfoldable pub create_order :
      CreateOrderParams → Exec (World Tables) RepositoryError (Order × List OrderItem)
  create_order p = transaction other (existing_order p.idempotency_key >>= unless_duplicate p)
