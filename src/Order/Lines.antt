-- ===== src/Order/Lines.antt =====
-- The rows that CreateOrder inserts.
use mathlib.Core.Path.{subst}
use micromart.Prelude.{
  ℕ, ◌+◌, ◌*◌, ◌≡◌, sym, ap, ◌∙◌, Option, none, some, List, [], ◌∷◌, ◌++◌, arith, append-nil,
  append_one,
}
use micromart.Prelude.Int.{pos}
use micromart.Prelude.Exec.{ok, >>=-eq-ok, ◌>>=◌, pure}
use micromart.Sql.{World, Uuids, statement, begun}
use micromart.Sql.Tables.{and_then, check_positive, check_bigint, and_then-eq-some}
use micromart.Sql.Laws.{statement-eq-ok}
use micromart.Order.Entity.{Order, OrderItem, Tables}
use micromart.Order.Repository.{
  CreateOrderItemParams, other, put_order, put_item, put_new_item, insert_order_item, insert_items,
}

-- A row of order `k` that stands for an item of the request.
abbrev pub Line : ⦃u : Uuids⦄ → ℕ → CreateOrderItemParams → OrderItem → Type 0
Line ⦃u⦄ k item row =
    (row.order_id ≡ k)
    × (u.parse item.product_id ≡ some row.product_id)
    × (item.quantity ≡ pos row.quantity)
    × (item.unit_price_cents ≡ pos row.unit_price_cents)

abbrev pub Lines : ⦃u : Uuids⦄ → ℕ → List CreateOrderItemParams → List OrderItem → Type 0
Lines k [] [] = Unit
Lines k [] (row ∷ rows) = ⊥
Lines k (item ∷ items) [] = ⊥
Lines k (item ∷ items) (row ∷ rows) = Line k item row × Lines k items rows

-- What the rows of an order come to.
unfoldable pub price : List OrderItem → ℕ
price [] = 0
price (row ∷ rows) = row.unit_price_cents * row.quantity + price rows

-- Tables that got rows at the end of order_items.
abbrev pub AddsItems : List OrderItem → Tables → Tables → Type 0
AddsItems rows t t' =
    (t'.order_items ≡ t.order_items ++ rows) × (t'.orders ≡ t.orders) × (t'.sagas ≡ t.sagas)

AddsItems-nil : (t t' : Tables) → t ≡ t' → AddsItems [] t t'
AddsItems-nil t t' same = (
  ap (λ (t : Tables). t.order_items) (sym same) ∙ sym (append-nil t.order_items),
  ap (λ (t : Tables). t.orders) (sym same),
  ap (λ (t : Tables). t.sagas) (sym same),
)

AddsItems-cons :
    (row : OrderItem) (rows : List OrderItem) (a b c d : Tables)
    → AddsItems (row ∷ []) a b
    → AddsItems rows b c
    → c ≡ d
    → AddsItems (row ∷ rows) a d
AddsItems-cons row rows a b c d (f, f1, f2) (g, g1, g2) same =
    subst (AddsItems (row ∷ rows) a) same
      (g ∙ ap (λ xs. xs ++ rows) f ∙ append_one a.order_items row rows, g1 ∙ f1, g2 ∙ f2)

put_item-eq-some :
    (i : Option OrderItem) (o : Option Order) (item : OrderItem) (w : World Tables) {x : OrderItem}
    {w' : World Tables}
    → put_item i o item w ≡ some (x, w')
    → (item ≡ x) × AddsItems (x ∷ []) w.tables w'.tables
put_item-eq-some none none item w h = cc
put_item-eq-some none (some o) item w h = ground arith
put_item-eq-some (some i) o item w h = cc

pub put_order-eq-some :
    (i k : Option Order) (order : Order) (w : World Tables) {x : Order} {w' : World Tables}
    → put_order i k order w ≡ some (x, w')
    → (i ≡ none)
      × (k ≡ none)
      × (order ≡ x)
      × (w'.tables ≡ record w.tables { orders = w.tables.orders ++ x ∷ [] })
put_order-eq-some none none order w h = ground arith
put_order-eq-some none (some k) order w h = cc
put_order-eq-some (some i) k order w h = cc

module _ ⦃u : Uuids⦄ where
  insert_order_item-Line :
      (k : ℕ) (item : CreateOrderItemParams) (w : World Tables) {row : OrderItem}
      {w' : World Tables}
      → insert_order_item k item w ≡ some (row, w')
      → Line k item row × AddsItems (row ∷ []) w.tables w'.tables
  unfolding insert_order_item
  insert_order_item-Line k item w {row} {w'} h =
      let (j, ej, h1) =
        and_then-eq-some (u.parse item.product_id)
          (λ j.
            and_then (check_positive item.quantity)
              λ q. and_then (check_bigint item.unit_price_cents) λ c. put_new_item k j q c w)
          h in
      let (q, eq, h2) =
        and_then-eq-some (check_positive item.quantity)
          (λ q. and_then (check_bigint item.unit_price_cents) λ c. put_new_item k j q c w) h1 in
      let (c, ec, h3) =
        and_then-eq-some (check_bigint item.unit_price_cents) (λ c. put_new_item k j q c w) h2 in
      let (same, left) = put_item-eq-some _ _ _ w h3 in
      (
        (
          ap (λ (r : OrderItem). r.order_id) (sym same),
          ej ∙ ap (λ (r : OrderItem). some r.product_id) same,
          ground arith,
          ground arith,
        ),
        left,
      )

  pub insert_items-Lines :
      (k : ℕ) (items : List CreateOrderItemParams) (w : World Tables) {rows : List OrderItem}
      {w' : World Tables}
      → insert_items k items w ≡ (ok rows, w')
      → Lines k items rows × AddsItems rows w.tables w'.tables
  unfolding insert_items
  insert_items-Lines k [] w {rows} {w'} h =
      let none_there : [] ≡ rows = ground arith in
      let same : w.tables ≡ w'.tables = ground arith in
      subst (λ (r : List OrderItem). Lines k [] r × AddsItems r w.tables w'.tables) none_there
        (tt, AddsItems-nil _ _ same)
  insert_items-Lines k (item ∷ items) w {rows} {w'} h =
      let (row, w1, e1, h1) =
        >>=-eq-ok (statement other (insert_order_item k item))
          (λ row. insert_items k items >>= λ rows. pure (row ∷ rows)) w h in
      let (more, w2, e2, h2) = >>=-eq-ok (insert_items k items) (λ rows. pure (row ∷ rows)) w1 h1 in
      let (line, left) = insert_order_item-Line k item (begun w) (statement-eq-ok _ _ w e1) in
      let (lines, left') = insert_items-Lines k items w1 e2 in
      let grown : row ∷ more ≡ rows = ground arith in
      let same : w2.tables ≡ w'.tables = ground arith in
      subst (λ (r : List OrderItem). Lines k (item ∷ items) r × AddsItems r w.tables w'.tables)
        grown ((line, lines), AddsItems-cons row more _ _ _ _ left left' same)
