-- ===== src/Tests/Lists.antt =====
-- The pages of products and orders, and the cursors.
use micromart.Prelude.{
  ℕ, suc, ◌≡◌, refl, some, length, filter, arith, Option, inl, inr, ◌&&◌, [], ◌∷◌,
}
use micromart.Prelude.Ascii.{codes}
use micromart.Prelude.Int.{pos}
use micromart.Sql.{calm, statement}
use micromart.Prelude.Exec.{ok}
use micromart.Inventory.Entity.{other}
use micromart.Paging.Page.{list_page, page_size_of, bound_of, is_after}
use micromart.Paging.Bounds.{IsPageOf, list_page-fits}
use micromart.Paging.Cursor.{encode_cursor, decode_cursor, decode_cursor-encode_cursor}
use micromart.Paging.Ascending.{order_by, insert_by}
use micromart.Paging.Walk.{all_pages}
use micromart.Inventory.ProductList.{is_listed, list_products, list_products-all_pages}
use micromart.Tests.Fixtures.{digits, lamp, shelf, shop}

abbrev same : ℕ → ℕ
same n = n

decode_cursor-encode_cursor_example : decode_cursor (encode_cursor "1a-") ≡ codes "1a-"
decode_cursor-encode_cursor_example =
    decode_cursor-encode_cursor "1a-" (omega arith, (omega arith, (omega arith, tt)))

list_products-all_pages_example :
    let listed = order_by (λ p. p.id) (filter (is_listed "home") shelf.products) in
    all_pages
      (λ token. (list_products "home" (pos 1) token (calm shelf same 7)).0)
      (suc (length listed))
      ""
    ≡ some listed
list_products-all_pages_example = list_products-all_pages shelf same 7 (pos 1) (refl, tt) "home"

first_page :
    list_page (λ p. p.id) other (λ t. t.products) (is_listed "home") (pos 0) "" shop
    ≡ (ok (lamp ∷ [], ""), shop)
unfolding list_page statement page_size_of decode_cursor order_by insert_by
first_page = refl

list_page-fits_example :
    (c : Option ℕ) × (bound_of (decode_cursor "") ≡ some c)
    × IsPageOf 20
        (length (filter (λ p. is_listed "home" p && is_after c p.id) shelf.products))
        (lamp ∷ [])
        ""
list_page-fits_example =
    list_page-fits (λ p. p.id) other (λ t. t.products) (is_listed "home") "" (pos 0) 20
      (inr (refl, inl (omega arith))) shop first_page
