-- ===== src/Order/LookUps.antt =====
-- The order server with the inventory service in its own process: what the look-up of the products
-- leaves behind.
use micromart.Prelude.{
  ℕ, String, ◌≡◌, refl, Bool, Option, none, some, List, [], ◌∷◌, Option-cases, inl, inr,
}
use micromart.Prelude.Int.{pos, leb_ℤ}
use micromart.Prelude.Text.{is_empty}
use micromart.Prelude.Exec.{◌>>=◌, pure, map_error, Result, ok, err}
use micromart.Prelude.Keeps.{Keeps, >>=-Keeps, attempt-Keeps, if-Keeps}
use micromart.Sql.{World, Uuids, calm, statement}
use micromart.Grpc.Status.{Code}
use micromart.Grpc.Inventory.{ProductMessage}
use micromart.Inventory.Entity.{Tables, Product}
use micromart.Inventory.Products
use micromart.Inventory.ProductServer
use micromart.Inventory.Stock.{StockItem, lock_product, or_not_found}
use micromart.Order.Entity
use micromart.Order.Entity.{Order, OrderItem, OrderStatus, SagaState, pending}
use micromart.Order.System.{System, on_remote}
use micromart.Order.Server.{Server, look_up_products, look_up_product, looked_up}
use micromart.Order.AllOrNothing.{shop_saga, in_process}

-- A read of a product leaves a database that answers as it was.
module _ ⦃u : Uuids⦄ (t : Tables) (us : ℕ → ℕ) (n : ℕ) where
  abbrev IsUnmoved : World Tables → Type 0
  IsUnmoved w = w ≡ calm t us n

  lock_product-calm : (id : String) → Keeps IsUnmoved (lock_product id)
  unfolding lock_product statement
  lock_product-calm id w h = elim (Option-cases (u.parse id)) [
    | inl bad ↦ rw (h, bad) refl
    | inr (k, good) ↦ rw (h, good) refl
  ]

  or_not_found-calm : (p : Option Product) → Keeps IsUnmoved (or_not_found p)
  or_not_found-calm none w h = h
  or_not_found-calm (some p) w h = h

  get_product-calm : (id : String) → Keeps IsUnmoved (ProductServer.get_product id)
  unfolding ProductServer.get_product Products.get_product
  get_product-calm id =
      if-Keeps IsUnmoved (is_empty id) _ _ (λ w h. h)
        (>>=-Keeps IsUnmoved (map_error ProductServer.product_code (Products.get_product id))
          (λ p. pure (ProductServer.product_to_proto p))
          (λ w h.
            >>=-Keeps IsUnmoved (lock_product id) or_not_found (lock_product-calm id)
              or_not_found-calm w h)
          (λ p w h. h))

-- The order server with the inventory's handlers at the other end, and without Redis.
module _ ⦃u : Uuids⦄ (pay : String → Result Code Unit) (has_clickhouse : Bool) where
  abbrev pub shop_server : Server (World Tables)
  shop_server = record {
    inventory_client = in_process ProductServer.get_product;
    saga = shop_saga ProductServer.get_product pay has_clickhouse;
    redis = none;
  }

  -- The look-ups change neither database.
  module _ (db : World Entity.Tables) (t : Tables) (us : ℕ → ℕ) (n : ℕ) where
    abbrev pub Untouched : System (World Tables) → Type 0
    Untouched s = (s.db ≡ db) × (s.remote ≡ calm t us n)

    looked_up-Untouched :
        (item : StockItem) (r : Result Code ProductMessage)
        → Keeps Untouched (looked_up shop_server item r)
    looked_up-Untouched item (ok product) =
        if-Keeps Untouched product.active _ _ (λ s h. h) (λ s h. h)
    looked_up-Untouched item (err Code.not_found) = λ s h. h
    looked_up-Untouched item (err _) = λ s h. h

    look_up_product-Untouched :
        (item : StockItem) → Keeps Untouched (look_up_product shop_server item)
    look_up_product-Untouched item =
        if-Keeps Untouched (is_empty item.product_id) _ _ (λ s h. h)
          (if-Keeps Untouched (leb_ℤ item.quantity (pos 0)) _ _ (λ s h. h)
            (attempt-Keeps Untouched (on_remote (ProductServer.get_product item.product_id))
              (looked_up shop_server item)
              (λ s (h, k). (h, get_product-calm t us n item.product_id s.remote k))
              (looked_up-Untouched item)))

    pub look_up_products-Untouched :
        (items : List StockItem) → Keeps Untouched (look_up_products shop_server items)
    unfolding look_up_products
    look_up_products-Untouched [] = λ s h. h
    look_up_products-Untouched (item ∷ items) =
        >>=-Keeps Untouched (look_up_product shop_server item)
          (λ found. look_up_products shop_server items >>= λ rest. pure (found ∷ rest))
          (look_up_product-Untouched item)
          (λ found.
            >>=-Keeps Untouched (look_up_products shop_server items) (λ rest. pure (found ∷ rest))
              (look_up_products-Untouched items) (λ rest s h. h))
