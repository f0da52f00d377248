-- ===== src/Inventory/ProductServer.antt =====
-- services/inventory/product_server.go, CreateProduct, GetProduct and UpdateProduct, and
-- productToProto of helper.go.
use micromart.Prelude.{String, Option, none, some, if◌then◌else◌}
use micromart.Prelude.Int.{pos, ltb_ℤ}
use micromart.Prelude.Text.{is_empty}
use micromart.Prelude.Exec.{Exec, pure, raise, map_error, ◌>>=◌}
use micromart.Sql.{World, Uuids}
use micromart.Grpc.Status.{Code, invalid_argument, internal}
use micromart.Grpc.Inventory.{ProductMessage}
use micromart.Inventory.Entity.{Product, Tables, Error, not_found}
use micromart.Inventory.StockServer.{checked}
use micromart.Inventory.Products
use micromart.Inventory.Products.{CreateProductParams, UpdateProductParams}

-- The checks of CreateProduct before the repository is called.
unfoldable pub check_create : CreateProductParams → Option Code
check_create p =
    if is_empty p.name
    then some invalid_argument
    else if ltb_ℤ p.price_cents (pos 0)
    then some invalid_argument
    else if ltb_ℤ p.initial_stock (pos 0)
    then some invalid_argument
    else none

abbrev pub internal_code : Error → Code
internal_code _ = internal

abbrev pub product_code : Error → Code
product_code not_found = Code.not_found
product_code _ = internal

module _ ⦃u : Uuids⦄ where
  unfoldable pub product_to_proto : Product → ProductMessage
  product_to_proto p = record {
    id = u.text p.id;
    name = p.name;
    description = p.description;
    category = p.category;
    price_cents = pos p.price_cents;
    stock_available = pos p.stock_available;
    stock_reserved = pos p.stock_reserved;
    active = p.active;
    created_at = p.created_at;
    updated_at = p.updated_at;
  }

  abbrev pub as_message : Exec (World Tables) Code Product → Exec (World Tables) Code ProductMessage
  as_message m = m >>= λ p. pure (product_to_proto p)

  -- (s *Server) CreateProduct
  unfoldable pub create_product : CreateProductParams → Exec (World Tables) Code ProductMessage
  create_product p =
      checked (check_create p) (as_message (map_error internal_code (Products.create_product p)))

  -- (s *Server) GetProduct
  unfoldable pub get_product : String → Exec (World Tables) Code ProductMessage
  get_product id =
      if is_empty id
      then raise invalid_argument
      else as_message (map_error product_code (Products.get_product id))

  -- (s *Server) UpdateProduct
  unfoldable pub update_product :
      String → UpdateProductParams → Exec (World Tables) Code ProductMessage
  update_product id p =
      if is_empty id
      then raise invalid_argument
      else as_message (map_error product_code (Products.update_product id p))
