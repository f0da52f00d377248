-- ===== src/Inventory/Ledger.antt =====
-- The stock as a ledger: what the operations of services/inventory take from a product's stock is
-- written in the reservations that were decremented.
use micromart.Prelude.{
  ℕ, ◌+◌, ◌≡◌, refl, true, false, Bool, some, List, [], ◌∷◌, ◌++◌, ◌&&◌, arith, ◌==◌, if◌then◌else◌,
  filter, ◌∙◌,
}
use micromart.Sql.Tables.{update_all}
use micromart.Inventory.Entity.{
  Product, StockReservation, ReservationStatus, reserved, decremented, Tables, find_product,
}
use micromart.Inventory.Stock.{is_held_by}
use micromart.Inventory.Holdings.{total}
use micromart.Inventory.Updates.{Both-before}
use micromart.Inventory.Effects.{Falls, StockFalls}
use micromart.Inventory.Closing.{taken}

abbrev pub is_decremented : ReservationStatus → Bool
is_decremented decremented = true
is_decremented _ = false

-- The quantity of product `k` that reservations with status DECREMENTED have taken.
unfoldable pub sold : ℕ → List StockReservation → ℕ
sold k [] = 0
sold k (r ∷ rs) =
    (if is_decremented r.status && (r.product_id == k) then r.quantity else 0) + sold k rs

-- Every product stays, and what its stock has fallen by is what was sold of it meanwhile.
abbrev pub Conserves : Tables → Tables → Type 0
Conserves t t' =
    (k : ℕ) (p : Product)
    → find_product k t.products ≡ some p
    → (p' : Product) × (find_product k t'.products ≡ some p')
      × (p'.stock_available + sold k t'.reservations ≡ p.stock_available + sold k t.reservations)

pub Conserves-refl : (t : Tables) → Conserves t t
Conserves-refl t k p found = (p, found, refl)

pub Conserves-trans : (a b c : Tables) → Conserves a b → Conserves b c → Conserves a c
Conserves-trans a b c f g k p found =
    let (q, found', same) = f k p found in
    let (r, found'', same') = g k q found' in (r, found'', same' ∙ same)

-- A fall of the stock that the reservations account for.
pub StockFalls-Conserves :
    (n : ℕ → ℕ) (t t' : Tables)
    → StockFalls n t t'
    → ((j : ℕ) → sold j t'.reservations ≡ sold j t.reservations + n j)
    → Conserves t t'
StockFalls-Conserves n t t' falls counts k p found =
    let (p', found', fallen) = Both-before (Falls (n k)) _ _ (falls k) found in
    (p', found', omega (arith, fallen, counts k))

pub sold-append :
    (k : ℕ) (rs : List StockReservation) (r : StockReservation)
    → r.status ≡ reserved
    → sold k (rs ++ r ∷ []) ≡ sold k rs
unfolding sold
sold-append k [] r s = rw s refl
sold-append k (q ∷ rs) r s = omega (arith, sold-append k rs r s)

-- Closing the reservations of an order as released sells nothing, as decremented what they held.
pub sold-mark :
    (leaves : Bool) (k o now : ℕ) (st : ReservationStatus) (rs : List StockReservation)
    → is_decremented st ≡ leaves
    → sold k (update_all (is_held_by o) (λ r. record r { status = st; updated_at = now }) rs)
      ≡ sold k rs + taken leaves (total k (filter (is_held_by o) rs))
unfolding sold total
sold-mark leaves k o now st [] e = ground arith
sold-mark leaves k o now st (r ∷ rs) e = ground (arith, sold-mark leaves k o now st rs e)
