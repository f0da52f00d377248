-- ===== src/Inventory/ProductRows.antt =====
-- What the products' own operations do to the tables.
use micromart.Prelude.{String, refl, arith}
use micromart.Sql.{World, Uuids}
use micromart.Inventory.Entity.{Tables}
use micromart.Inventory.Holdings.{held}
use micromart.Inventory.Invariants.{update_product-KeepsTables}
use micromart.Inventory.Consistency.{IsConsistent, Updated-AllAccounts}
use micromart.Inventory.Products.{UpdateProductParams, update_product}

-- UpdateProduct keeps the tables consistent, whatever it is asked to set and however its calls end.
pub update_product-IsConsistent :
    ⦃u : Uuids⦄ (id : String) (q : UpdateProductParams) (w : World Tables)
    → IsConsistent w.tables
    → IsConsistent (update_product id q w).1.tables
update_product-IsConsistent =
    update_product-KeepsTables IsConsistent λ set k t t' keeps updated same c. record {
      primary = updated.0 c.primary;
      accounted = rw same (
          Updated-AllAccounts set k t.products t'.products (λ j. held j t.reservations)
            (λ j. held j t.reservations) updated c.accounted (λ j n. refl)
            (λ p p' f a s. ground (arith, keeps p p' s)));
    }
