-- ===== src/Inventory/History.antt =====
-- Every history of the inventory service, from whatever requests and failures: the invariants of its
-- tables, and so the stock.
use micromart.Prelude.{
  ℕ, String, ◌≡◌, refl, Bool, Option, none, some, List, [], ◌∷◌, map, if◌then◌else◌,
}
use micromart.Prelude.Text.{is_empty}
use micromart.Prelude.Exec.{Exec, map_error, pure, raise}
use micromart.Prelude.Keeps.{Keeps, >>=-Keeps, if-Keeps}
use micromart.Sql.{World, Uuids}
use micromart.Grpc.Status.{Code, invalid_argument}
use micromart.Inventory.Entity.{Product, Tables, Error, find_product}
use micromart.Inventory.Stock
use micromart.Inventory.Stock.{StockItem}
use micromart.Inventory.StockServer
use micromart.Inventory.StockServer.{checked, check_reserve, reserve_code, settle_code}
use micromart.Inventory.Products
use micromart.Inventory.Products.{CreateProductParams, UpdateProductParams}
use micromart.Inventory.ProductServer
use micromart.Inventory.ProductServer.{
  product_to_proto, check_create, internal_code, product_code, as_message,
}
use micromart.Inventory.ProductList
use micromart.Inventory.ProductList.{
  list_products_call, search_products_call, is_listed, is_match, listed_products,
}
use micromart.Inventory.Holdings.{held}
use micromart.Inventory.Consistency.{Accounts, reserve_stock-IsConsistent}
use micromart.Inventory.Settlement.{release_stock-IsConsistent, decrement_stock-IsConsistent}
use micromart.Inventory.ProductRows.{update_product-IsConsistent}
use micromart.Inventory.ProductCreation.{create_product-IsConsistent}
use micromart.Inventory.References.{
  reserve_stock-IsReferenced, release_stock-IsReferenced, decrement_stock-IsReferenced,
  update_product-IsReferenced, create_product-IsReferenced,
}
use micromart.Inventory.Ledger.{Conserves, Conserves-refl}
use micromart.Inventory.Conserved.{
  reserve_stock-Conserves, release_stock-Conserves, decrement_stock-Conserves,
  create_product-Conserves, update_product-Conserves,
}
use micromart.Inventory.Invariants.{get_product-KeepsTables, list_page-KeepsTables}
use micromart.Inventory.Service.{
  Request, Conditions, under, IsSound, serve, serve_all, reserve_stock, release_stock,
  decrement_stock, get_product, create_product, update_product, list_products, search_products,
}

-- The tables that the migrations leave.
abbrev pub empty_tables : Tables
empty_tables = record { products = []; reservations = [] }

pub empty_tables-IsSound : IsSound empty_tables
unfolding held
empty_tables-IsSound = (record { primary = tt; accounted = λ k p found. cc }, λ k missing. refl)

module _ (P : Tables → Type 0) where
  -- What a handler keeps that its repository does.
  abbrev Preserves : {E A : Type 0} → Exec (World Tables) E A → Type 0
  Preserves m = Keeps (λ w. P w.tables) m

  paged-Preserves :
      (m : Exec (World Tables) Error (List Product × String)) ⦃u : Uuids⦄
      → Preserves m
      → Preserves (listed_products (map_error internal_code m))
  paged-Preserves m h =
      >>=-Keeps (λ w. P w.tables) (map_error internal_code m)
        (λ (products, next_token). pure (map product_to_proto products, next_token)) h (λ a w p. p)

  checked-Preserves :
      {A : Type 0} (c : Option Code) (call : Exec (World Tables) Code A)
      → Preserves call
      → Preserves (checked c call)
  checked-Preserves none call h = h
  checked-Preserves (some c) call h = λ w p. p

  nonempty-Preserves :
      {A : Type 0} (text : String) (call : Exec (World Tables) Code A)
      → Preserves call
      → Preserves (if is_empty text then raise invalid_argument else call)
  nonempty-Preserves text call =
      if-Keeps (λ w. P w.tables) (is_empty text) (raise invalid_argument) call (λ w p. p)

  message-Preserves :
      ⦃u : Uuids⦄ (m : Exec (World Tables) Code Product) → Preserves m → Preserves (as_message m)
  message-Preserves m h =
      >>=-Keeps (λ w. P w.tables) m (λ p. pure (product_to_proto p)) h (λ a w p. p)

  module _ (matches : String → String → Bool) ⦃u : Uuids⦄
      (reserves : (order_id : String) (items : List StockItem)
        → Preserves (Stock.reserve_stock order_id items))
      (releases : (id : String) → Preserves (Stock.release_stock id))
      (decrements : (id : String) → Preserves (Stock.decrement_stock id))
      (creates : (p : CreateProductParams) → Preserves (Products.create_product p))
      (updates : (id : String) (p : UpdateProductParams)
        → Preserves (Products.update_product id p)) where
    -- What the five operations of the repository keep that write, every request keeps.
    serve-Preserves :
        (request : Request) (w : World Tables) → P w.tables → P (serve matches request w).tables
    unfolding serve StockServer.reserve_stock StockServer.release_stock StockServer.decrement_stock
        ProductServer.get_product ProductServer.create_product ProductServer.update_product
        list_products_call search_products_call ProductList.list_products
        ProductList.search_products
    serve-Preserves (reserve_stock order_id items) =
        checked-Preserves (check_reserve order_id items)
          (map_error reserve_code (Stock.reserve_stock order_id items)) (reserves order_id items)
    serve-Preserves (release_stock id) =
        nonempty-Preserves id (map_error settle_code (Stock.release_stock id)) (releases id)
    serve-Preserves (decrement_stock id) =
        nonempty-Preserves id (map_error settle_code (Stock.decrement_stock id)) (decrements id)
    serve-Preserves (get_product id) =
        nonempty-Preserves id (as_message (map_error product_code (Products.get_product id))) (
          message-Preserves (map_error product_code (Products.get_product id))
            (get_product-KeepsTables P id))
    serve-Preserves (create_product p) =
        checked-Preserves (check_create p)
          (as_message (map_error internal_code (Products.create_product p)))
          (message-Preserves (map_error internal_code (Products.create_product p)) (creates p))
    serve-Preserves (update_product id q) =
        nonempty-Preserves id (as_message (map_error product_code (Products.update_product id q)))
          (message-Preserves (map_error product_code (Products.update_product id q)) (updates id q))
    serve-Preserves (list_products category n token) =
        paged-Preserves (ProductList.list_products category n token)
          (list_page-KeepsTables P (is_listed category) n token)
    serve-Preserves (search_products query n token) =
        nonempty-Preserves query
          (listed_products
            (map_error internal_code (ProductList.search_products matches query n token)))
          (paged-Preserves (ProductList.search_products matches query n token)
            (list_page-KeepsTables P (is_match matches query) n token))

module _ (P : Tables → Type 0) (matches : String → String → Bool) ⦃u : Uuids⦄
    (serves : (request : Request) (w : World Tables)
      → P w.tables
      → P (serve matches request w).tables) where
  -- What every request keeps, every history keeps.
  pub serve_all-Preserves :
      (history : List (Conditions × Request)) (t : Tables) → P t → P (serve_all matches history t)
  unfolding serve_all
  serve_all-Preserves [] t p = p
  serve_all-Preserves ((c, request) ∷ history) t p =
      serve_all-Preserves history _ (serves request (under c t) p)

module _ (matches : String → String → Bool) ⦃u : Uuids⦄ where
  -- Every request keeps both invariants, whatever it asks for and however its calls end.
  pub serve-IsSound :
      (request : Request) (w : World Tables)
      → IsSound w.tables
      → IsSound (serve matches request w).tables
  serve-IsSound =
      serve-Preserves IsSound matches
        (λ order_id items w (c, r). (
          reserve_stock-IsConsistent order_id items w c,
          reserve_stock-IsReferenced order_id items w r,
        ))
        (λ id w (c, r). (release_stock-IsConsistent id w c, release_stock-IsReferenced id w r))
        (λ id w (c, r). (decrement_stock-IsConsistent id w c, decrement_stock-IsReferenced id w r))
        (λ p w (c, r). (create_product-IsConsistent p w r c, create_product-IsReferenced p w r))
        (λ id q w (c, r).
          (update_product-IsConsistent id q w c, update_product-IsReferenced id q w r))

  serve_all-IsSound :
      (history : List (Conditions × Request)) (t : Tables)
      → IsSound t
      → IsSound (serve_all matches history t)
  serve_all-IsSound = serve_all-Preserves IsSound matches serve-IsSound

  -- After every history of the service from empty tables, of whatever requests, with whatever
  -- calls of the database failing or losing their answers, each product's row counts as reserved
  -- what the open reservations hold of it, no more than there is, and that fits a column of
  -- PostgreSQL's INTEGER.
  pub serve_all-Accounts :
      (history : List (Conditions × Request)) (k : ℕ) (p : Product)
      → find_product k (serve_all matches history empty_tables).products ≡ some p
      → Accounts (held k (serve_all matches history empty_tables).reservations) p
  serve_all-Accounts history k p found =
      (serve_all-IsSound history empty_tables empty_tables-IsSound).0.accounted k p found

  -- Every request goes on conserving what was conserved since the tables `t`.
  pub serve-Conserves :
      (t : Tables) (request : Request) (w : World Tables)
      → Conserves t w.tables
      → Conserves t (serve matches request w).tables
  serve-Conserves t =
      serve-Preserves (Conserves t) matches (reserve_stock-Conserves t) (release_stock-Conserves t)
        (decrement_stock-Conserves t) (create_product-Conserves t) (update_product-Conserves t)

  -- No history of the service loses a product or a unit of stock: from any tables on, after
  -- whatever requests and failures, each product is still there, and what is available of it with
  -- what decremented reservations have taken is as much as at the start.
  serve_all-Conserves :
      (history : List (Conditions × Request)) (t : Tables)
      → Conserves t (serve_all matches history t)
  serve_all-Conserves history t =
      serve_all-Preserves (Conserves t) matches (serve-Conserves t) history t (Conserves-refl t)
