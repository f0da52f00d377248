-- ===== src/Inventory/Service.antt =====
-- The inventory service as a whole (services/inventory): the requests that its server takes
-- (stock_server.go and product_server.go), one after another. Before each one the database may
-- change in what is outside of the tables: which of the coming calls fail, and the clock.
use micromart.Prelude.{ℕ, String, Bool, List, [], ◌∷◌}
use micromart.Prelude.Int.{ℤ}
use micromart.Sql.{World, Outcome, Uuids}
use micromart.Inventory.Entity.{Tables}
use micromart.Inventory.Stock.{StockItem}
use micromart.Inventory.StockServer
use micromart.Inventory.StockServer.{checked, check_reserve, reserve_code, settle_code}
use micromart.Inventory.Products.{CreateProductParams, UpdateProductParams}
use micromart.Inventory.ProductServer
use micromart.Inventory.ProductServer.{check_create, internal_code, product_code, as_message}
use micromart.Inventory.ProductList.{list_products_call, search_products_call}
use micromart.Inventory.Consistency.{IsConsistent}
use micromart.Inventory.ProductCreation.{IsReferenced}

pub data Request : Type 0 where
  reserve_stock : String → List StockItem → Request
  release_stock decrement_stock get_product : String → Request
  create_product : CreateProductParams → Request
  update_product : String → UpdateProductParams → Request
  list_products search_products : String → ℤ → String → Request

-- What a request finds beside the tables.
pub record Conditions : Type 0 where
  pub outcomes : List Outcome
  pub uuids : ℕ → ℕ
  pub now : ℕ

abbrev pub under : Conditions → Tables → World Tables
under c t = record { tables = t; outcomes = c.outcomes; uuids = c.uuids; now = c.now }

-- Both invariants of the tables.
abbrev pub IsSound : Tables → Type 0
IsSound t = IsConsistent t × IsReferenced t

module _ (matches : String → String → Bool) ⦃u : Uuids⦄ where
  -- The handler of a request; the answer is not kept.
  unfoldable pub serve : Request → World Tables → World Tables
  serve (Request.reserve_stock order_id items) w = (StockServer.reserve_stock order_id items w).1
  serve (Request.release_stock id) w = (StockServer.release_stock id w).1
  serve (Request.decrement_stock id) w = (StockServer.decrement_stock id w).1
  serve (Request.get_product id) w = (ProductServer.get_product id w).1
  serve (Request.create_product p) w = (ProductServer.create_product p w).1
  serve (Request.update_product id p) w = (ProductServer.update_product id p w).1
  serve (Request.list_products category n token) w = (list_products_call category n token w).1
  serve (Request.search_products query n token) w = (search_products_call matches query n token w).1

  -- A history of the service.
  unfoldable pub serve_all : List (Conditions × Request) → Tables → Tables
  serve_all [] t = t
  serve_all ((c, request) ∷ history) t = serve_all history (serve request (under c t)).tables
