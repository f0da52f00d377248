-- ===== src/Inventory/ProductCreation.antt =====
-- What CreateProduct does to the tables.
use micromart.Prelude.{ℕ, ◌≡◌, inl, inr, Option, none, some, [], ◌∷◌, ◌++◌, arith}
use micromart.Sql.{World, begun}
use micromart.Sql.Tables.{check_int, check_bigint, and_then, and_then-eq-some}
use micromart.Sql.Laws.{statement-cases}
use micromart.Sql.Keys.{find_key-append, append-IsPrimary}
use micromart.Inventory.Entity.{Product, Tables, other, find_product}
use micromart.Inventory.Holdings.{held}
use micromart.Inventory.Consistency.{Accounts, IsConsistent}
use micromart.Inventory.Products.{
  CreateProductParams, put_product, new_product, put_new_product, insert_product, create_product,
}

-- The foreign key of stock_reservations: nothing is held of a product that is not there.
abbrev pub IsReferenced : Tables → Type 0
IsReferenced t = (k : ℕ) → find_product k t.products ≡ none → held k t.reservations ≡ 0

pub put_product-eq-some :
    (found : Option Product) (p : Product) (w : World Tables) {q : Product} {w' : World Tables}
    → put_product found p w ≡ some (q, w')
    → (found ≡ none)
      × (w'.tables.products ≡ w.tables.products ++ p ∷ [])
      × (w'.tables.reservations ≡ w.tables.reservations)
put_product-eq-some none p w h = ground arith
put_product-eq-some (some q) p w h = cc

new_row_Accounts :
    (p : CreateProductParams) (price stock : ℕ) (w : World Tables) (n : ℕ)
    → check_int p.initial_stock ≡ some stock
    → n ≡ 0
    → Accounts n (new_product p price stock w)
new_row_Accounts p price stock w n e none_held = ground arith

insert_product-IsConsistent :
    (p : CreateProductParams) (w : World Tables) {q : Product} {w' : World Tables}
    → insert_product p w ≡ some (q, w')
    → IsReferenced w.tables
    → IsConsistent w.tables
    → IsConsistent w'.tables
unfolding insert_product
insert_product-IsConsistent p w {q} {w'} h r c =
    let (price, e1, h1) =
      and_then-eq-some (check_bigint p.price_cents)
        (λ price. and_then (check_int p.initial_stock) λ stock. put_new_product p price stock w)
        h in
    let (stock, e2, h2) =
      and_then-eq-some (check_int p.initial_stock) (λ stock. put_new_product p price stock w) h1 in
    let (free, rows, same) = put_product-eq-some _ (new_product p price stock w) w h2 in
    record {
      primary = rw rows (
          append-IsPrimary (λ p. p.id) w.tables.products (new_product p price stock w) free
            c.primary);
      accounted = λ k x f.
          elim (find_key-append (λ p. p.id) k w.tables.products (new_product p price stock w)
            (rw rows at f)) [
              | inl before ↦ rw same (c.accounted k x before)
              | inr (missing, is_new, row) ↦
                  rw (same, ← row)
                    (new_row_Accounts p price stock w (held k w.tables.reservations) e2
                      (r k missing))
            ];
    }

-- From consistent tables in which nothing is held of a product that is not there, CreateProduct
-- leaves consistent tables, however its call ends.
pub create_product-IsConsistent :
    (p : CreateProductParams) (w : World Tables)
    → IsReferenced w.tables
    → IsConsistent w.tables
    → IsConsistent (create_product p w).1.tables
unfolding create_product
create_product-IsConsistent p w r c = elim (statement-cases other (insert_product p) w) [
  | inl same ↦ rw same c
  | inr (q, w', made, left) ↦ rw left (insert_product-IsConsistent p (begun w) made r c)
]
