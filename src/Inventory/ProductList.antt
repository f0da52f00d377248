-- ===== src/Inventory/ProductList.antt =====
-- services/inventory/product_repository.go, ListProducts and SearchProducts, and their handlers in
-- product_server.go. How PostgreSQL matches a name with a query in full text search is an argument.
use micromart.Prelude.{
  ℕ, suc, String, ◌≡◌, Bool, ◌&&◌, some, List, map, if◌then◌else◌, filter, length,
}
use micromart.Prelude.Int.{ℤ}
use micromart.Prelude.Text.{is_empty, str_eq}
use micromart.Prelude.Exec.{Exec, pure, raise, map_error, ◌>>=◌}
use micromart.Sql.{World, Uuids, calm}
use micromart.Sql.Keys.{IsPrimary}
use micromart.Grpc.Status.{Code, invalid_argument}
use micromart.Grpc.Inventory.{ProductMessage}
use micromart.Inventory.Entity.{Product, Tables, Error, other}
use micromart.Inventory.ProductServer.{internal_code, product_to_proto}
use micromart.Paging.Ascending.{order_by}
use micromart.Paging.Page.{list_page}
use micromart.Paging.Walk.{all_pages, all_pages-listed}

-- The four cases of the switch: `category = $1` where there is a category.
abbrev pub is_listed : String → Product → Bool
is_listed category p =
    if is_empty category then p.active else (str_eq p.category category && p.active)

abbrev pub is_match : (String → String → Bool) → String → Product → Bool
is_match matches query p = matches p.name query && p.active

module _ ⦃u : Uuids⦄ where
  -- (r *Repository) ListProducts
  unfoldable pub list_products :
      String → ℤ → String → Exec (World Tables) Error (List Product × String)
  list_products category page_size page_token =
      list_page (λ p. p.id) other (λ t. t.products) (is_listed category) page_size page_token

  -- (r *Repository) SearchProducts
  unfoldable pub search_products :
      (String → String → Bool)
      → String
      → ℤ
      → String
      → Exec (World Tables) Error (List Product × String)
  search_products matches query page_size page_token =
      list_page (λ p. p.id) other (λ t. t.products) (is_match matches query) page_size page_token

  abbrev pub listed_products :
      Exec (World Tables) Code (List Product × String)
      → Exec (World Tables) Code (List ProductMessage × String)
  listed_products m =
      m >>= λ (products, next_token). pure (map product_to_proto products, next_token)

  -- (s *Server) ListProducts
  unfoldable pub list_products_call :
      String → ℤ → String → Exec (World Tables) Code (List ProductMessage × String)
  list_products_call category page_size page_token =
      listed_products (map_error internal_code (list_products category page_size page_token))

  -- (s *Server) SearchProducts
  unfoldable pub search_products_call :
      (String → String → Bool)
      → String
      → ℤ
      → String
      → Exec (World Tables) Code (List ProductMessage × String)
  search_products_call matches query page_size page_token =
      if is_empty query
      then raise invalid_argument
      else listed_products
          (map_error internal_code (search_products matches query page_size page_token))

module _ ⦃u : Uuids⦄ (t : Tables) (us : ℕ → ℕ) (now : ℕ) (page_size : ℤ)
    (prim : IsPrimary (λ p. p.id) t.products) where
  -- Reading the pages of ListProducts from the empty token until there is no next one, with any page
  -- size, gives every active product of the category once, in the order of the ids; with the empty
  -- category, every active product. Ids are unique, calls are carried out and answered, and nothing
  -- changes the table meanwhile.
  pub list_products-all_pages :
      (category : String)
      → let listed = order_by (λ p. p.id) (filter (is_listed category) t.products) in
        all_pages
          (λ token. (list_products category page_size token (calm t us now)).0)
          (suc (length listed))
          ""
        ≡ some listed
  unfolding list_products
  list_products-all_pages category =
      all_pages-listed (λ p. p.id) other (λ t. t.products) (is_listed category) page_size t us now
        prim

  -- Reading the pages of SearchProducts gives every active product whose name matches once, in the
  -- order of the ids, whatever the match. Ids are unique, calls are carried out and answered, and
  -- nothing changes the table meanwhile.
  search_products-all_pages :
      (matches : String → String → Bool) (query : String)
      → let listed = order_by (λ p. p.id) (filter (is_match matches query) t.products) in
        all_pages
          (λ token. (search_products matches query page_size token (calm t us now)).0)
          (suc (length listed))
          ""
        ≡ some listed
  unfolding search_products
  search_products-all_pages matches query =
      all_pages-listed (λ p. p.id) other (λ t. t.products) (is_match matches query) page_size t us
        now prim
