-- ===== src/Order/Creation.antt =====
-- What CreateOrder has done when it returns.
use mathlib.Core.Path.{subst}
use micromart.Prelude.{
  String, ◌≡◌, sym, ap, ◌∙◌, Bool, false, true, Option, none, some, List, [], ◌∷◌, ◌++◌, arith,
  if◌then◌else◌,
}
use micromart.Prelude.Int.{pos}
use micromart.Prelude.Text.{is_empty}
use micromart.Prelude.Exec.{ok, >>=-eq-ok, ◌>>=◌, pure, raise, pure-eq, with_state}
use micromart.Sql.{World, Uuids, statement, begun}
use micromart.Sql.Laws.{statement-eq-ok, transaction-eq-ok}
use micromart.Sql.Keys.{find_key}
use micromart.Order.Entity.{Order, OrderItem, pending, Tables}
use micromart.Order.Repository.{
  CreateOrderParams, other, add_prices, null_string, insert_order, insert_items, insert_all,
  create_new, existing_order, select_items, select_by_key, duplicate_order, unless_duplicate,
  create_order, taken_key, find_by_key,
}
use micromart.Order.Lines.{Lines, put_order-eq-some, insert_items-Lines}

-- What the creation of an order has added to the tables.
pub record Created ⦃u : Uuids⦄ (p : CreateOrderParams) (o : Order) (rows : List OrderItem)
    (t t' : Tables) : Type 0 where
  pub fresh : find_key (λ o. o.id) o.id t.orders ≡ none
  pub key_free : taken_key (null_string p.idempotency_key) t.orders ≡ none
  pub customer : o.customer_id ≡ p.customer_id
  pub status : o.status ≡ pending
  pub total : o.total_cents ≡ add_prices (pos 0) p.items
  pub key : o.idempotency_key ≡ null_string p.idempotency_key
  pub lines : Lines o.id p.items rows
  pub orders : t'.orders ≡ t.orders ++ o ∷ []
  pub order_items : t'.order_items ≡ t.order_items ++ rows
  pub sagas : t'.sagas ≡ t.sagas

module _ ⦃u : Uuids⦄ (p : CreateOrderParams) where
  create_new-Created :
      (w : World Tables) {o : Order} {rows : List OrderItem} {w' : World Tables}
      → create_new p w ≡ (ok (o, rows), w')
      → Created p o rows w.tables w'.tables
  unfolding insert_order
  create_new-Created w {o} {rows} {w'} h =
      let (o1, w1, e1, h1) =
        >>=-eq-ok
          (statement other (
            insert_order p.customer_id (add_prices (pos 0) p.items)
              (null_string p.idempotency_key)))
          (insert_all p) w h in
      let (rows1, w2, e2, h2) =
        >>=-eq-ok (insert_items o1.id p.items) (λ items. pure (o1, items)) w1 h1 in
      let (new_id, new_key, row, left) =
        put_order-eq-some _ _ _ (begun w) (statement-eq-ok _ _ w e1) in
      let (lines, (items, orders, sagas)) = insert_items-Lines o1.id p.items w1 e2 in
      let made : Created p o1 rows1 w.tables w2.tables = record {
        fresh = subst (λ (x : Order). find_key (λ o. o.id) x.id w.tables.orders ≡ none) row new_id;
        key_free = new_key;
        customer = ap (λ (x : Order). x.customer_id) (sym row);
        status = ap (λ (x : Order). x.status) (sym row);
        total = ap (λ (x : Order). x.total_cents) (sym row);
        key = ap (λ (x : Order). x.idempotency_key) (sym row);
        lines = lines;
        orders = orders ∙ ap (λ (t : Tables). t.orders) left;
        order_items = items ∙ ap (λ (t : Tables). t.order_items ++ rows1) left;
        sagas = sagas ∙ ap (λ (t : Tables). t.sagas) left;
      } in
      let (same, left') = pure-eq h2 in
      subst
        (λ (x : (Order × List OrderItem) × World Tables). Created p x.0.0 x.0.1 w.tables x.1.tables)
        (λ i. (same i, left' i)) made

  existing_order-same :
      (no_key : Bool) (key : String) (w : World Tables) {found : Option Order} {w' : World Tables}
      → (if no_key then pure none else select_by_key key) w ≡ (ok found, w')
      → w'.tables ≡ w.tables
  unfolding select_by_key
  existing_order-same true key w h = λ i. (sym h i).1.tables
  existing_order-same false key w {found} {w'} h =
      let e = statement-eq-ok other (λ w. some (find_by_key key w.tables.orders, w)) w h in
      let same : begun w ≡ w' = ground arith in λ i. (sym same i).tables

  unless_duplicate-Created :
      (found : Option Order) (w : World Tables) {o : Order} {rows : List OrderItem}
      {w' : World Tables}
      → unless_duplicate p found w ≡ (ok (o, rows), w')
      → Created p o rows w.tables w'.tables
  unless_duplicate-Created none w h = create_new-Created w h
  unless_duplicate-Created (some o) w h =
      let (items, w1, e1, h1) =
        >>=-eq-ok (select_items o.id) (λ items. raise (duplicate_order o items)) w h in
      cc

  -- When CreateOrder returns an order and its items, however its calls ended, it has added to the
  -- tables this one order, pending, with the customer, the key and the total of the request, under
  -- an id and a key that were free, and one row for each item of the request, in order.
  pub create_order-Created :
      (w : World Tables) {o : Order} {rows : List OrderItem}
      → (create_order p w).0 ≡ ok (o, rows)
      → Created p o rows w.tables (create_order p w).1.tables
  unfolding create_order
  create_order-Created w {o} {rows} h =
      let body = existing_order p.idempotency_key >>= unless_duplicate p in
      let (e, left) = transaction-eq-ok other body w h in
      let (found, w1, e1, h1) =
        >>=-eq-ok (existing_order p.idempotency_key) (unless_duplicate p) (begun w)
          (with_state _ e) in
      let same : w1.tables ≡ w.tables =
        existing_order-same (is_empty p.idempotency_key) p.idempotency_key (begun w) e1 in
      rw left (
        subst (λ (t : Tables). Created p o rows t (body (begun w)).1.tables) same
          (unless_duplicate-Created found w1 h1))
