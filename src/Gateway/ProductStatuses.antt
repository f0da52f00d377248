-- ===== src/Gateway/ProductStatuses.antt =====
-- The gateway in front of the inventory service: which HTTP statuses a client sees.
use micromart.Prelude.{ℕ, String, Bool, List, [], ◌∷◌}
use micromart.Prelude.Exec.{Exec}
use micromart.Prelude.Raises.{Raises}
use micromart.Sql.{World, Uuids}
use micromart.Grpc.Connection.{Fate, dial}
use micromart.Inventory.Entity.{Tables}
use micromart.Inventory.Products
use micromart.Inventory.ProductList.{
  list_products, search_products, list_products_call, search_products_call,
}
use micromart.Inventory.ProductServer.{create_product, get_product, update_product}
use micromart.Gateway.Products.{
  ProductServiceClient, Request, post, get_list, get_search, get_one, put,
}

module _ ⦃u : Uuids⦄ (matches : String → String → Bool) where
  -- NewInventoryServiceClient of the gateway's connection to the inventory service, where the call
  -- that a request makes has this fate.
  abbrev pub product_client : Fate → ProductServiceClient (World Tables)
  product_client fate = record {
    create_product = λ p. dial fate (create_product p);
    get_product = λ id. dial fate (get_product id);
    update_product = λ id p. dial fate (update_product id p);
    list_products = λ category page_size page_token.
        dial fate (list_products_call category page_size page_token);
    search_products = λ query page_size page_token.
        dial fate (search_products_call matches query page_size page_token);
  }

-- The errors that a client of a route may see where the service answers.
abbrev pub errors_of : Request → List ℕ
errors_of (post body) = 400 ∷ 500 ∷ []
errors_of (get_list category page_token page_size) = 500 ∷ []
errors_of (get_search q page_token page_size) = 400 ∷ 500 ∷ []
errors_of (get_one id) = 400 ∷ 404 ∷ 500 ∷ []
errors_of (put id body) = 400 ∷ 404 ∷ 500 ∷ []

abbrev pub success_of : Request → ℕ
success_of (post body) = 201
success_of _ = 200
