-- ===== src/Tests/Fixtures.antt =====
-- A way to read and print ids, and small tables.
use Prim.Native.String.{String}
use micromart.Prelude.{
  ℕ, zero, suc, ◌≡◌, refl, false, true, Option, none, some, [], ◌∷◌, List, arith,
}
use micromart.Prelude.Text.{is_empty}
use micromart.Prelude.Ascii.{IsAscii}
use micromart.Prelude.Int.{pos}
use micromart.Prelude.Exec.{Exec, pure, Result, ok}
use micromart.Sql.{World, Uuids, calm}
use micromart.Inventory.Entity.{Product, Tables}
use micromart.Inventory.Stock.{StockItem}
use micromart.Grpc.Status.{Code}
use micromart.Grpc.Inventory.{ProductMessage}
use micromart.Order.Entity.{
  Tables as OrderTables, Order, SagaState, pending, in_progress, reserve_inventory,
}
use micromart.Order.Saga.{SagaInput}
use micromart.Order.System.{System}
use micromart.Order.SagaOutcome.{at}
use micromart.Order.Repository.{CreateOrderParams}

-- An id as a text of that many digits and one more.
abbrev pub print_id : ℕ → String
print_id zero = "0"
print_id (suc n) = String.◌∷◌ "1" (print_id n)

abbrev grow : Option ℕ → Option ℕ
grow none = none
grow (some n) = some (suc n)

abbrev pub read_id : String → Option ℕ
read_id String.[] = none
read_id (String.◌∷◌ c String.[]) = some 0
read_id (String.◌∷◌ c (String.◌∷◌ d s)) = grow (read_id (String.◌∷◌ d s))

pub read-print : (n : ℕ) → read_id (print_id n) ≡ some n
read-print zero = refl
read-print (suc zero) = refl
read-print (suc (suc n)) = rw (read-print (suc n))

pub is_empty-print : (n : ℕ) → is_empty (print_id n) ≡ false
is_empty-print zero = refl
is_empty-print (suc n) = refl

pub IsAscii-print : (n : ℕ) → IsAscii (print_id n)
IsAscii-print zero = (omega arith, tt)
IsAscii-print (suc n) = (omega arith, IsAscii-print n)

instance abbrev pub digits : Uuids
digits = record {
  parse = read_id;
  text = print_id;
  parse-text = read-print;
  is_empty-text = is_empty-print;
  IsAscii-text = IsAscii-print;
}

abbrev pub lamp : Product
lamp = record {
  id = 3;
  name = "lamp";
  description = "";
  category = "home";
  price_cents = 1500;
  stock_available = 10;
  stock_reserved = 0;
  active = true;
  created_at = 0;
  updated_at = 0;
}

abbrev pub shelf : Tables
shelf = record { products = lamp ∷ []; reservations = [] }

abbrev pub shop : World Tables
shop = calm shelf (λ n. n) 7

abbrev pub two_lamps : List StockItem
two_lamps = record { product_id = print_id 3; quantity = pos 2 } ∷ []

abbrev pub order_five : Order
order_five = record {
  id = 5;
  customer_id = "ann";
  status = pending;
  total_cents = pos 3000;
  idempotency_key = some "first";
  created_at = 1;
  updated_at = 1;
}

abbrev pub saga_nine : SagaState
saga_nine = record {
  id = 9;
  order_id = 5;
  current_step = reserve_inventory;
  status = in_progress;
  reservation_id = none;
  failure_reason = none;
  created_at = 1;
  updated_at = 1;
}

abbrev pub desk : OrderTables
desk = record { orders = order_five ∷ []; order_items = []; sagas = saga_nine ∷ [] }

abbrev pub no_orders : World OrderTables
no_orders = calm (record { orders = []; order_items = []; sagas = [] }) (λ n. n) 7

abbrev pub five_input : SagaInput
five_input = record {
  order_id = 5;
  customer_id = "ann";
  total_cents = pos 3000;
  item_count = pos 1;
  items = two_lamps;
  created_at = 1;
}

-- The order service with the inventory at the other end of its calls.
abbrev pub office : System (World Tables)
office = at desk (λ n. n) 7 shop []

abbrev pub show_lamp : String → Exec (World Tables) Code ProductMessage
show_lamp id = pure (record {
  id = id;
  name = "lamp";
  description = "";
  category = "home";
  price_cents = pos 1500;
  stock_available = pos 10;
  stock_reserved = pos 0;
  active = true;
  created_at = 0;
  updated_at = 0;
})

abbrev pub paid_at_once : String → Result Code Unit
paid_at_once order = ok tt

abbrev pub two_lamps_please : CreateOrderParams
two_lamps_please = record {
  customer_id = "ann";
  idempotency_key = "first";
  items =
      record {
        product_id = print_id 3;
        quantity = pos 2;
        unit_price_cents = pos 1500;
        product_name = "lamp";
      }
      ∷ [];
}
