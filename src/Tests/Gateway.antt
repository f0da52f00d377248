-- ===== src/Tests/Gateway.antt =====
-- Requests to the gateway, with the services behind it.
use micromart.Prelude.{suc, ◌≡◌, refl, some, true, map, filter, length}
use micromart.Order.LookUps.{shop_server}
use micromart.Order.OrderList.{is_of_customer}
use micromart.Paging.Ascending.{order_by}
use micromart.Paging.Walk.{all_pages}
use micromart.Grpc.Connection.{delivered}
use micromart.Gateway.Http.{Texts}
use micromart.Gateway.Orders
use micromart.Gateway.Products
use micromart.Gateway.Statuses.{order_client}
use micromart.Gateway.Walk.{read_page, order_shown, list-all_pages}
use micromart.Tests.Fixtures.{digits, print_id, desk, office, paid_at_once}

abbrev plain_texts : Texts
plain_texts = record { status_text = λ _. "status"; time_text = print_id }

list-all_pages_example :
    let listed = order_by (λ o. o.id) (filter (is_of_customer "ann") desk.orders) in
    all_pages
      (λ token.
        read_page
          (Orders.list plain_texts
            (order_client delivered (shop_server paid_at_once true))
            "ann"
            token
            "1"
            office).0)
      (suc (length listed))
      ""
    ≡ some (map (order_shown (shop_server paid_at_once true) plain_texts) listed)
list-all_pages_example =
    list-all_pages (shop_server paid_at_once true) plain_texts "ann" "1" office desk (λ n. n) 7 refl
      (refl, tt) refl
