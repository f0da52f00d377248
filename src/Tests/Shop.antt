-- ===== src/Tests/Shop.antt =====
-- Histories of the inventory service and of the whole shop.
use micromart.Prelude.{ℕ, zero, suc, ◌≡◌, refl, true, none, some, List, [], ◌∷◌}
use micromart.Prelude.Int.{pos}
use micromart.Prelude.Exec.{pure}
use micromart.Sql.{Outcome, done, lost}
use micromart.Grpc.Client.{dial_with_resilience}
use micromart.Grpc.Retry.{retry_interceptor, attempts, is_transient}
use micromart.Inventory.Entity.{Product, find_product}
use micromart.Inventory.Holdings.{held}
use micromart.Inventory.Ledger.{Conserves}
use micromart.Inventory.Consistency.{Accounts}
use micromart.Inventory.Products.{CreateProductParams}
use micromart.Inventory.Service.{Conditions, Request, serve, serve_all}
use micromart.Inventory.History.{empty_tables, serve_all-Accounts}
use micromart.Order.System.{System}
use micromart.Order.Network.{Turn, delivered, answer_lost, Network, Dialled, networked_client}
use micromart.Order.Shop.{ShopStep, shop_step, shop_steps, restart}
use micromart.Order.ShopStock.{
  networked_server, LeavesStock, shop_steps-Accounts, shop_steps-Conserves,
}
use micromart.Tests.Fixtures.{digits, print_id, two_lamps, no_orders, lamp}
use micromart.Tests.Checkout.{checkout_run, two_lamps_request}

abbrev quiet : ℕ → Conditions
quiet id = record { outcomes = []; uuids = λ n. id; now = 7 }

abbrev new_lamp : CreateProductParams
new_lamp = record {
  name = "lamp";
  description = "";
  category = "home";
  price_cents = pos 1500;
  initial_stock = pos 10;
}

-- A lamp is put up for sale, and two are reserved by a call whose commit is not answered.
abbrev first_day : List (Conditions × Request)
first_day =
    (quiet 3, Request.create_product new_lamp)
    ∷ (
      record (quiet 8) { outcomes = done ∷ done ∷ done ∷ done ∷ lost ∷ [] },
      Request.reserve_stock (print_id 5) two_lamps,
    )
    ∷ []

abbrev reserved_lamp : Product
reserved_lamp = record lamp { stock_reserved = 2; created_at = 7; updated_at = 7 }

first_day_lamp :
    find_product 3 (serve_all (λ name query. true) first_day empty_tables).products
    ≡ some reserved_lamp
unfolding checkout_run serve serve_all
first_day_lamp = refl

serve_all-Accounts_example :
    Accounts
      (held 3 (serve_all (λ name query. true) first_day empty_tables).reservations)
      reserved_lamp
serve_all-Accounts_example =
    serve_all-Accounts (λ name query. true) first_day 3 reserved_lamp first_day_lamp

-- A network that loses the answer of the second attempt, which is the reservation of the checkout.
abbrev unlucky : ℕ → Turn
unlucky zero = record {
  others = (quiet 3, Request.create_product new_lamp) ∷ [];
  conditions = quiet 1;
  fate = delivered;
}
unlucky (suc zero) = record { others = []; conditions = quiet 8; fate = answer_lost }
unlucky (suc (suc n)) = record { others = []; conditions = quiet 9; fate = delivered }

abbrev four_attempts : Dialled (Unit {0})
four_attempts = record {
  options = λ A. record {
    circuit_breaker = none;
    max_retries = pos 3;
    retry_base_delay = 0;
    has_logger = true;
  };
  wait = λ delay attempt. pure tt;
}

abbrev opening_day : System (Network (Unit {0}))
opening_day = record {
  db = no_orders;
  remote = record { inventory = empty_tables; turns = unlucky; beside = tt };
  events = [];
}

four_attempts-LeavesStock : LeavesStock four_attempts none
four_attempts-LeavesStock = record {
  breaker = λ P A. tt;
  waiting = λ P delay attempt net h. h;
  reading = λ P cache e. cc;
  writing = λ P cache e. cc;
}

-- The request for two lamps, and a start of the order service after it.
abbrev busy_day : List (List Outcome × ShopStep)
busy_day = ([], ShopStep.create_order two_lamps_request) ∷ ([], restart) ∷ []

-- The reservation that the retry repeated is taken too: six of the ten lamps are left.
abbrev sold_lamp : Product
sold_lamp = record lamp { stock_available = 6; created_at = 7; updated_at = 7 }

busy_day_lamp :
    let server = networked_server (λ name query. true) four_attempts none true in
    find_product 3 (shop_steps server busy_day opening_day).remote.inventory.products
    ≡ some sold_lamp
unfolding checkout_run serve serve_all networked_client shop_step shop_steps dial_with_resilience
    retry_interceptor attempts is_transient
busy_day_lamp = refl

shop_steps-Accounts_example :
    let server = networked_server (λ name query. true) four_attempts none true in
    Accounts
      (held 3 (shop_steps server busy_day opening_day).remote.inventory.reservations)
      sold_lamp
shop_steps-Accounts_example =
    shop_steps-Accounts (λ name query. true) four_attempts none four_attempts-LeavesStock true
      busy_day opening_day refl 3 sold_lamp busy_day_lamp

-- From the opened shop on, with the lamp on the shelf.
abbrev second_day : System (Network (Unit {0}))
second_day = record opening_day {
  remote = record {
    inventory = record { products = lamp ∷ []; reservations = [] };
    turns = unlucky;
    beside = tt;
  };
}

shop_steps-Conserves_example :
    let server = networked_server (λ name query. true) four_attempts none true in
    Conserves second_day.remote.inventory (shop_steps server busy_day second_day).remote.inventory
shop_steps-Conserves_example =
    shop_steps-Conserves (λ name query. true) four_attempts none four_attempts-LeavesStock true
      busy_day second_day
