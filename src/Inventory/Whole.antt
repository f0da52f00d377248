-- ===== src/Inventory/Whole.antt =====
-- services/inventory/stock_repository.go, ReserveStock: all of a reservation or nothing of it.
use micromart.Prelude.{ℕ, ◌+◌, ◌≤◌, ◌≡◌, refl, ap, ◌⊎◌, inl, inr, Option, none, some, List, String}
use micromart.Prelude.Exec.{ok, err}
use micromart.Sql.{Uuids, calm}
use micromart.Inventory.Entity.{Product, Tables, Error, find_product}
use micromart.Inventory.Stock.{StockItem, reserve_stock}
use micromart.Inventory.Consistency.{IsConsistent}
use micromart.Inventory.Effects.{Reserves, demand, reserve_stock-Reserves}
use micromart.Inventory.RoundTrip.{reserve_enough}
use micromart.Inventory.CalmReserve.{reserve_stock-calm}

-- A product, if there is one, has so much that is available and not reserved.
abbrev pub HasEnough : ℕ → Option Product → Type 0
HasEnough n none = Unit
HasEnough n (some p) = p.stock_reserved + n ≤ p.stock_available

enough_lem :
    (n : ℕ) (found : Option Product)
    → ((p : Product) → found ≡ some p → p.stock_reserved + n ≤ p.stock_available)
    → HasEnough n found
enough_lem n none h = tt
enough_lem n (some p) h = h p refl

-- ReserveStock from consistent tables, if every call is carried out and answered: it returns the
-- order's id, and then of every product as much as all items together ask for was to spare, and just
-- that has been added to what the reservations hold of it, all together and those of the order, while
-- no product's available stock has changed; or it is an error, and the tables are as they were.
pub reserve_stock-whole :
    ⦃u : Uuids⦄ (order_id : String) (o : ℕ) (items : List StockItem) (t : Tables) (us : ℕ → ℕ)
    (n : ℕ)
    → u.parse order_id ≡ some o
    → IsConsistent t
    → let (r, w) = reserve_stock order_id items (calm t us n) in
      ((r ≡ ok order_id)
        × ((j : ℕ) → HasEnough (demand j items) (find_product j t.products))
        × Reserves o items t w.tables)
      ⊎ ((x : Error) × (r ≡ err x) × (w.tables ≡ t))
reserve_stock-whole order_id o items t us n po c = elim (reserve_stock-calm order_id items t us n) [
  | inl (t', us', e) ↦
      let returned = ap (λ (w : _ × _). w.0) e in
      inl (
        returned,
        λ j.
            enough_lem (demand j items) (find_product j t.products)
              (reserve_enough order_id o items (calm t us n) po c returned j),
        reserve_stock-Reserves order_id o po items (calm t us n) returned,
      )
  | inr (x, us', e) ↦ inr (x, ap (λ (w : _ × _). w.0) e, ap (λ (w : _ × _). w.1.tables) e)
]
