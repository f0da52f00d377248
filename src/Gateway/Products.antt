-- ===== src/Gateway/Products.antt =====
-- services/gateway/product_handler.go and product_dto.go.
use micromart.Prelude.{String, Bool, Option, List, map, if◌then◌else◌}
use micromart.Prelude.Int.{ℤ}
use micromart.Prelude.Text.{is_empty}
use micromart.Prelude.Exec.{Exec}
use micromart.Grpc.Status.{Code}
use micromart.Grpc.Inventory.{ProductMessage}
use micromart.Inventory.Products
use micromart.Gateway.Http.{
  Texts, Handler, forward, bad_request, with_body, PaginatedResponse, page_size_param,
}

-- inventoryv1.InventoryServiceClient, as far as the gateway calls it.
pub record ProductServiceClient (S : Type 0) : Type 0 where
  pub create_product : Products.CreateProductParams → Exec S Code ProductMessage
  pub get_product : String → Exec S Code ProductMessage
  pub update_product : String → Products.UpdateProductParams → Exec S Code ProductMessage
  pub list_products : String → ℤ → String → Exec S Code (List ProductMessage × String)
  pub search_products : String → ℤ → String → Exec S Code (List ProductMessage × String)

pub record CreateProductRequest : Type 0 where
  pub name : String
  pub description : String
  pub category : String
  pub price_cents : ℤ  -- int64
  pub initial_stock : ℤ  -- int32

-- A nil pointer is `none`.
pub record UpdateProductRequest : Type 0 where
  pub name : Option String
  pub description : Option String
  pub category : Option String
  pub price_cents : Option ℤ
  pub active : Option Bool

pub record ProductResponse : Type 0 where
  pub id : String
  pub name : String
  pub description : String
  pub category : String
  pub price_cents : ℤ  -- int64
  pub stock_available : ℤ  -- int32
  pub stock_reserved : ℤ  -- int32
  pub active : Bool
  pub created_at : String
  pub updated_at : String

unfoldable pub product_to_response : Texts → ProductMessage → ProductResponse
product_to_response texts p = record {
  id = p.id;
  name = p.name;
  description = p.description;
  category = p.category;
  price_cents = p.price_cents;
  stock_available = p.stock_available;
  stock_reserved = p.stock_reserved;
  active = p.active;
  created_at = texts.time_text p.created_at;
  updated_at = texts.time_text p.updated_at;
}

abbrev pub create_params : CreateProductRequest → Products.CreateProductParams
create_params req = record {
  name = req.name;
  description = req.description;
  category = req.category;
  price_cents = req.price_cents;
  initial_stock = req.initial_stock;
}

abbrev pub update_params : UpdateProductRequest → Products.UpdateProductParams
update_params req = record {
  name = req.name;
  description = req.description;
  category = req.category;
  price_cents = req.price_cents;
  active = req.active;
}

abbrev pub list_response : Texts → List ProductMessage × String → PaginatedResponse ProductResponse
list_response texts (products, next_page_token) = record {
  entries = map (product_to_response texts) products;
  next_page_token = next_page_token;
}

module _ {S : Type 0} (texts : Texts) (client : ProductServiceClient S) where
  -- (h *ProductHandler) Create
  unfoldable pub create : Option CreateProductRequest → Handler S ProductResponse
  create body =
      with_body body
        λ req. forward 201 (product_to_response texts) (client.create_product (create_params req))

  -- (h *ProductHandler) Get
  unfoldable pub get : String → Handler S ProductResponse
  get id = forward 200 (product_to_response texts) (client.get_product id)

  -- (h *ProductHandler) Update
  unfoldable pub update : String → Option UpdateProductRequest → Handler S ProductResponse
  update id body =
      with_body body λ req.
        forward 200 (product_to_response texts) (client.update_product id (update_params req))

  -- (h *ProductHandler) List, of the query parameters category, page_token and page_size
  unfoldable pub list : String → String → String → Handler S (PaginatedResponse ProductResponse)
  list category page_token page_size =
      forward 200 (list_response texts)
        (client.list_products category (page_size_param page_size) page_token)

  -- (h *ProductHandler) Search, of the query parameters q, page_token and page_size
  unfoldable pub search : String → String → String → Handler S (PaginatedResponse ProductResponse)
  search q page_token page_size =
      if is_empty q
      then bad_request
      else forward 200 (list_response texts)
          (client.search_products q (page_size_param page_size) page_token)

-- The routes under /products of main.go.
pub data Request : Type 0 where
  post : Option CreateProductRequest → Request
  get_list get_search : String → String → String → Request
  get_one : String → Request
  put : String → Option UpdateProductRequest → Request

abbrev pub ResponseTo : Request → Type 0
ResponseTo (get_list category page_token page_size) = PaginatedResponse ProductResponse
ResponseTo (get_search q page_token page_size) = PaginatedResponse ProductResponse
ResponseTo _ = ProductResponse

unfoldable pub serve :
    {S : Type 0}
    → Texts
    → ProductServiceClient S
    → (request : Request) → Handler S (ResponseTo request)
serve texts client (post body) = create texts client body
serve texts client (get_list category page_token page_size) =
    list texts client category page_token page_size
serve texts client (get_search q page_token page_size) = search texts client q page_token page_size
serve texts client (get_one id) = get texts client id
serve texts client (put id body) = update texts client id body
