-- ===== src/Order/Totals.antt =====
-- The total of an order.
use micromart.Prelude.{ℕ, ◌+◌, ◌*◌, ◌<◌, ◌≡◌, ap, ◌∙◌, List, [], ◌∷◌, arith}
use micromart.Prelude.Int.{pos, wrap64, ◌+ℤ◌, ◌*ℤ◌, int64_half, wrap64_pos, +ℤ_pos, *ℤ_pos}
use micromart.Prelude.Exec.{ok}
use micromart.Sql.{World, Uuids}
use micromart.Order.Entity.{Order, OrderItem, Tables}
use micromart.Order.Repository.{CreateOrderItemParams, CreateOrderParams, add_prices, create_order}
use micromart.Order.Lines.{Line, Lines, price}
use micromart.Order.Creation.{create_order-Created}

module _ ⦃u : Uuids⦄ where
  -- One round of the loop, while the total is small.
  add_price :
      (a : ℕ) (k : ℕ) (item : CreateOrderItemParams) (row : OrderItem)
      → Line k item row
      → a + row.unit_price_cents * row.quantity < int64_half
      → wrap64 (pos a +ℤ wrap64 (item.unit_price_cents *ℤ item.quantity))
        ≡ pos (a + row.unit_price_cents * row.quantity)
  add_price a k item row (_, _, q, c) small =
      rw
        (
          c,
          q,
          *ℤ_pos row.unit_price_cents row.quantity,
          wrap64_pos (row.unit_price_cents * row.quantity) (omega (arith, small)),
          +ℤ_pos a (row.unit_price_cents * row.quantity),
        )
        (wrap64_pos (a + row.unit_price_cents * row.quantity) small)

  add_prices_exact :
      (k a : ℕ) (items : List CreateOrderItemParams) (rows : List OrderItem)
      → Lines k items rows
      → a + price rows < int64_half
      → add_prices (pos a) items ≡ pos (a + price rows)
  unfolding add_prices price
  add_prices_exact k a [] [] lines small = ap pos (omega arith)
  add_prices_exact k a [] (row ∷ rows) lines small = elim lines [ ]
  add_prices_exact k a (item ∷ items) [] lines small = elim lines [ ]
  add_prices_exact k a (item ∷ items) (row ∷ rows) (line, lines) small =
      ap (λ x. add_prices x items) (add_price a k item row line (omega (arith, small)))
      ∙ add_prices_exact k (a + row.unit_price_cents * row.quantity) items rows lines
          (omega (arith, small))
      ∙ ap pos (omega arith)

  -- The total of an order that CreateOrder returned is the sum of its rows' prices times
  -- quantities, as long as that sum is below 2^63.
  pub create_order_total :
      (p : CreateOrderParams) (w : World Tables) {o : Order} {rows : List OrderItem}
      → (create_order p w).0 ≡ ok (o, rows)
      → price rows < int64_half
      → o.total_cents ≡ pos (price rows)
  create_order_total p w {o} {rows} h small =
      let made = create_order-Created p w h in
      made.total
      ∙ add_prices_exact o.id 0 p.items rows made.lines (omega (arith, small))
      ∙ ap pos (omega arith)
