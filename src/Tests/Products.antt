-- ===== src/Tests/Products.antt =====
-- The products of the inventory service.
use micromart.Prelude.{◌≡◌, true, none, some}
use micromart.Prelude.Int.{pos}
use micromart.Inventory.Products.{UpdateProductParams, update_product}
use micromart.Inventory.PartialUpdate.{partial_update, update_product-eq}
use micromart.Tests.Fixtures.{digits, print_id}

abbrev dearer : UpdateProductParams
dearer = record {
  name = none;
  description = some "bright";
  category = none;
  price_cents = some (pos 1800);
  active = some true;
}

update_product-eq_example : update_product (print_id 3) dearer ≡ partial_update (print_id 3) dearer
update_product-eq_example = update_product-eq (print_id 3) dearer
