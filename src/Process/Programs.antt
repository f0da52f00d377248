-- ===== src/Process/Programs.antt =====
-- The three programs of the repository.
use micromart.Process.{Surroundings, Main}
use micromart.Process.Order.{order_main}
use micromart.Process.Inventory.{inventory_main}
use micromart.Process.Gateway.{gateway_main}

pub data Program : Type 0 where
  order_service inventory_service gateway : Program

unfoldable pub main_of : Program → Surroundings → Main (Unit {0})
main_of order_service env = order_main env
main_of inventory_service env = inventory_main env
main_of gateway env = gateway_main env
