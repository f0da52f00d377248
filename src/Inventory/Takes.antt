-- ===== src/Inventory/Takes.antt =====
-- What one round of the loop of ReserveStock does to the tables, if it returns.
use mathlib.Core.Path.{subst}
use micromart.Prelude.{
  some-eq, ap, sym, ◌∙◌, ℕ, ◌<◌, ◌≡◌, refl, inl, inr, false, Option, none, some, [], ◌∷◌, ◌++◌,
  arith, String, Bool-cases,
}
use micromart.Prelude.Int.{ℤ, pos}
use micromart.Prelude.Exec.{ok, >>=-eq-ok, ◌>>=◌}
use micromart.Sql.{World, Uuids}
use micromart.Sql.Laws.{statement-eq-ok}
use micromart.Sql.Tables.{and_then-eq-some, check_positive}
use micromart.Inventory.Entity.{Product, StockReservation, reserved, Tables, find_product}
use micromart.Inventory.Stock.{
  StockItem, reserve_more, lock_product, add_reserved, record_reserved, is_short, or_not_found,
  reserve_locked, reserve_item, insert_reservation, admit,
}
use micromart.Inventory.Updates.{Updated, update_product-Updated, reserve_more_keeps}

-- One more reservation, of a positive quantity `n`.
pub record Recorded (o k : ℕ) (q : ℤ) (t t' : Tables) : Type 0 where
  pub n : ℕ
  pub row : StockReservation
  pub whole : q ≡ pos n
  pub positive : 0 < n
  pub row_status : row.status ≡ reserved
  pub row_order : row.order_id ≡ o
  pub row_product : row.product_id ≡ k
  pub row_quantity : row.quantity ≡ n
  pub added : t'.reservations ≡ t.reservations ++ row ∷ []
  pub kept : t'.products ≡ t.products

-- A product with enough to spare is updated, and the reservation is recorded.
pub record Takes (o k : ℕ) (q : ℤ) (t t' : Tables) : Type 0 where
  pub before : Product
  pub now : ℕ
  pub middle : Tables
  pub found : find_product k t.products ≡ some before
  pub enough : is_short before q ≡ false
  pub updated : Updated (reserve_more q now) k t.products middle.products
  pub unchanged : middle.reservations ≡ t.reservations
  pub recorded : Recorded o k q middle t'

admit-eq-some :
    (r : Option StockReservation) (p : Option Product) (row : StockReservation) (w : World Tables)
    {x : Unit {0}} {w' : World Tables}
    → admit r p row w ≡ some (x, w')
    → (w'.tables.reservations ≡ w.tables.reservations ++ row ∷ [])
      × (w'.tables.products ≡ w.tables.products)
admit-eq-some none (some p) row w {x} {w'} h = ground arith
admit-eq-some none none row w h = cc
admit-eq-some (some r) none row w h = cc
admit-eq-some (some r) (some p) row w h = cc

check_positive-eq-some : (q : ℤ) {n : ℕ} → check_positive q ≡ some n → (q ≡ pos n) × (0 < n)
check_positive-eq-some q h = ground arith

insert_reservation-Recorded :
    (o k : ℕ) (q : ℤ) (w : World Tables) {x : Unit {0}} {w' : World Tables}
    → insert_reservation o k q reserved w ≡ some (x, w')
    → Recorded o k q w.tables w'.tables
unfolding insert_reservation
insert_reservation-Recorded o k q w {x} {w'} h =
    let (n, e, h1) = and_then-eq-some _ _ h in
    let (is_pos, above) = check_positive-eq-some q e in
    let (added, products) = admit-eq-some _ _ _ _ h1 in
    record {
      n = n;
      row = _;
      whole = is_pos;
      positive = above;
      row_status = refl;
      row_order = refl;
      row_product = refl;
      row_quantity = refl;
      added = added;
      kept = products;
    }

or_not_found-eq-ok :
    (found : Option Product) (w : World Tables) {p : Product} {w' : World Tables}
    → or_not_found found w ≡ (ok p, w')
    → (found ≡ some p) × (w' ≡ w)
or_not_found-eq-ok none w h = cc
or_not_found-eq-ok (some p) w {p = q} {w'} h = (ground arith, ground arith)

module _ ⦃u : Uuids⦄ where
  lock_product-eq-ok :
      (id : String) (w : World Tables) {found : Option Product} {w' : World Tables}
      → lock_product id w ≡ (ok found, w')
      → (k : ℕ) × (u.parse id ≡ some k)
        × (find_product k w.tables.products ≡ found)
        × (w.tables ≡ w'.tables)
  unfolding lock_product
  lock_product-eq-ok id w {found} {w'} h =
      let (k, e, h1) = and_then-eq-some _ _ (statement-eq-ok _ _ w h) in
      (k, e, ground arith, ground arith)

  add_reserved-eq-ok :
      (item : StockItem) (w : World Tables) {x : Unit {0}} {w' : World Tables}
      → add_reserved item w ≡ (ok x, w')
      → (k : ℕ) × (u.parse item.product_id ≡ some k)
        × Updated (reserve_more item.quantity w.now) k w.tables.products w'.tables.products
        × (w'.tables.reservations ≡ w.tables.reservations)
  unfolding add_reserved
  add_reserved-eq-ok item w h =
      let (k, e, h1) = and_then-eq-some _ _ (statement-eq-ok _ _ w h) in
      let (updated, same) =
        update_product-Updated (reserve_more item.quantity) (reserve_more_keeps item.quantity) k _
          h1 in
      (k, e, updated, same)

  record_reserved-eq-ok :
      (order_id : String) (item : StockItem) (w : World Tables) {x : Unit {0}} {w' : World Tables}
      → record_reserved order_id item w ≡ (ok x, w')
      → (o k : ℕ) × (u.parse order_id ≡ some o)
        × (u.parse item.product_id ≡ some k)
        × Recorded o k item.quantity w.tables w'.tables
  unfolding record_reserved
  record_reserved-eq-ok order_id item w h =
      let (o, e, h1) = and_then-eq-some _ _ (statement-eq-ok _ _ w h) in
      let (k, e', h2) = and_then-eq-some _ _ h1 in
      (o, k, e, e', insert_reservation-Recorded o k item.quantity _ h2)

  reserve_locked-eq-ok :
      (order_id : String) (item : StockItem) (p : Product) (w : World Tables) {x : Unit {0}}
      {w' : World Tables}
      → reserve_locked order_id item p w ≡ (ok x, w')
      → (is_short p item.quantity ≡ false)
        × (w1 : World Tables) × (add_reserved item w ≡ (ok tt, w1))
        × (record_reserved order_id item w1 ≡ (ok x, w'))
  reserve_locked-eq-ok order_id item p w h = elim (Bool-cases (is_short p item.quantity)) [
    | inl short ↦ cc (rw short at h)
    | inr enough ↦
        let (_, w1, e, h1) =
          >>=-eq-ok (add_reserved item) (λ _. record_reserved order_id item) w (rw enough at h) in
        (enough, w1, e, h1)
  ]

  -- A round that returns has found the product with enough to spare, counted the quantity as
  -- reserved, and recorded it.
  pub reserve_item-Takes :
      (order_id : String) (item : StockItem) (w : World Tables) {x : Unit {0}} {w' : World Tables}
      → reserve_item order_id item w ≡ (ok x, w')
      → (o k : ℕ) × (u.parse order_id ≡ some o)
        × (u.parse item.product_id ≡ some k)
        × Takes o k item.quantity w.tables w'.tables
  unfolding reserve_item
  reserve_item-Takes order_id item w {x} {w'} h =
      let (found, w1, e1, h1) =
        >>=-eq-ok (lock_product item.product_id)
          (λ found. or_not_found found >>= reserve_locked order_id item) w h in
      let (product, w2, e2, h2) =
        >>=-eq-ok (or_not_found found) (reserve_locked order_id item) w1 h1 in
      let (k, pk, f1, t1) = lock_product-eq-ok item.product_id w e1 in
      let (f2, t2) = or_not_found-eq-ok found w1 e2 in
      let same : w2.tables ≡ w.tables = ap (λ (v : World Tables). v.tables) t2 ∙ sym t1 in
      let (enough, w3, e3, e4) = reserve_locked-eq-ok order_id item product w2 h2 in
      let (k', pk', updated, rest) = add_reserved-eq-ok item w2 e3 in
      let (o, k'', po, pk'', recorded) = record_reserved-eq-ok order_id item w3 e4 in
      (
        o,
        k,
        po,
        pk,
        record {
          before = product;
          now = w2.now;
          middle = w3.tables;
          found = f1 ∙ f2;
          enough = enough;
          updated =
              subst
                (λ (i : ℕ).
                  Updated (reserve_more item.quantity w2.now) i w.tables.products
                    w3.tables.products)
                (some-eq pk' pk)
                (subst
                  (λ (t : Tables).
                    Updated (reserve_more item.quantity w2.now) k' t.products w3.tables.products)
                  same updated);
          unchanged = rest ∙ ap (λ (t : Tables). t.reservations) same;
          recorded =
              subst (λ (i : ℕ). Recorded o i item.quantity w3.tables w'.tables) (some-eq pk'' pk)
                recorded;
        },
      )
