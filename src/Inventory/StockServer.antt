-- ===== src/Inventory/StockServer.antt =====
-- services/inventory/stock_server.go. Metrics and the texts of the errors are left out.
use micromart.Prelude.{String, Option, none, some, List, [], ◌∷◌, if◌then◌else◌}
use micromart.Prelude.Int.{pos, leb_ℤ}
use micromart.Prelude.Text.{is_empty}
use micromart.Prelude.Exec.{Exec, raise, map_error}
use micromart.Sql.{World, Uuids}
use micromart.Grpc.Status.{Code, invalid_argument, failed_precondition, internal}
use micromart.Inventory.Entity.{Tables, Error, not_found, insufficient_stock, invalid_reservation}
use micromart.Inventory.Stock
use micromart.Inventory.Stock.{StockItem}

-- The checks of the loop over the request's items.
unfoldable pub check_items : List StockItem → Option Code
check_items [] = none
check_items (item ∷ items) =
    if is_empty item.product_id
    then some invalid_argument
    else if leb_ℤ item.quantity (pos 0)
    then some invalid_argument
    else check_items items

-- The checks before the repository is called.
unfoldable pub check_reserve : String → List StockItem → Option Code
check_reserve order_id [] = some invalid_argument
check_reserve order_id (item ∷ items) =
    if is_empty order_id then some invalid_argument else check_items (item ∷ items)

abbrev pub reserve_code : Error → Code
reserve_code not_found = Code.not_found
reserve_code insufficient_stock = failed_precondition
reserve_code _ = internal

abbrev pub settle_code : Error → Code
settle_code invalid_reservation = Code.not_found
settle_code _ = internal

-- A request that fails its checks reaches no repository.
abbrev pub checked :
    {A : Type 0} → Option Code → Exec (World Tables) Code A → Exec (World Tables) Code A
checked (some c) call = raise c
checked none call = call

module _ ⦃u : Uuids⦄ where
  -- (s *Server) ReserveStock
  unfoldable pub reserve_stock : String → List StockItem → Exec (World Tables) Code String
  reserve_stock order_id items =
      checked (check_reserve order_id items)
        (map_error reserve_code (Stock.reserve_stock order_id items))

  -- (s *Server) ReleaseStock
  unfoldable pub release_stock : String → Exec (World Tables) Code Unit
  release_stock id =
      if is_empty id then raise invalid_argument else map_error settle_code (Stock.release_stock id)

  -- (s *Server) DecrementStock
  unfoldable pub decrement_stock : String → Exec (World Tables) Code Unit
  decrement_stock id =
      if is_empty id
      then raise invalid_argument
      else map_error settle_code (Stock.decrement_stock id)
