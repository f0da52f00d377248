-- ===== src/Order/Messages.antt =====
-- services/order/helper.go, statusToProto and orderToProto, and the messages of proto/order that
-- the handlers read and write.
use micromart.Prelude.{ℕ, String, Option, none, some, List, [], ◌∷◌, map, if◌then◌else◌}
use micromart.Prelude.Int.{ℤ, pos}
use micromart.Prelude.Text.{str_eq}
use micromart.Sql.{Uuids}
use micromart.Inventory.Stock.{StockItem}
use micromart.Order.Entity.{Order, OrderItem, OrderStatus}
use micromart.Order.Repository.{CreateOrderItemParams}

-- orderv1.OrderStatus; a status that is none of the known ones is `unspecified`.
pub data StatusMessage : Type 0 where
  unspecified pending reserving paying confirming completed failed cancelled : StatusMessage

unfoldable pub status_to_proto : OrderStatus → StatusMessage
status_to_proto OrderStatus.pending = pending
status_to_proto OrderStatus.reserving = reserving
status_to_proto OrderStatus.paying = paying
status_to_proto OrderStatus.confirming = confirming
status_to_proto OrderStatus.completed = completed
status_to_proto OrderStatus.failed = failed
status_to_proto OrderStatus.cancelled = cancelled

pub record OrderItemMessage : Type 0 where
  pub product_id : String
  pub product_name : String
  pub quantity : ℤ  -- int32
  pub unit_price_cents : ℤ  -- int64

pub record OrderMessage : Type 0 where
  pub id : String
  pub customer_id : String
  pub status : StatusMessage
  pub items : List OrderItemMessage
  pub total_cents : ℤ  -- int64
  pub created_at : ℕ
  pub updated_at : ℕ

pub record CreateOrderRequest : Type 0 where
  pub customer_id : String
  pub idempotency_key : String
  pub items : List StockItem

-- nameMap[id]: a later item overwrites an earlier one, and a missing key reads as "".
abbrev name_or : Option String → Option String → Option String
name_or (some later) earlier = some later
name_or none earlier = earlier

unfoldable pub find_name : List CreateOrderItemParams → String → Option String
find_name [] id = none
find_name (e ∷ es) id =
    name_or (find_name es id) (if str_eq e.product_id id then some e.product_name else none)

abbrev pub name_of : List CreateOrderItemParams → String → String
name_of es id = elim (find_name es id) [ some name ↦ name | none ↦ "" ]

module _ ⦃u : Uuids⦄ where
  abbrev pub item_to_proto : String → OrderItem → OrderItemMessage
  item_to_proto name item = record {
    product_id = u.text item.product_id;
    product_name = name;
    quantity = pos item.quantity;
    unit_price_cents = pos item.unit_price_cents;
  }

  abbrev pub message_of : Order → List OrderItemMessage → OrderMessage
  message_of order items = record {
    id = u.text order.id;
    customer_id = order.customer_id;
    status = status_to_proto order.status;
    items = items;
    total_cents = order.total_cents;
    created_at = order.created_at;
    updated_at = order.updated_at;
  }

  unfoldable pub order_to_proto : Order → List OrderItem → List CreateOrderItemParams → OrderMessage
  order_to_proto order items enriched =
      message_of order
        (map (λ item. item_to_proto (name_of enriched (u.text item.product_id)) item) items)
