-- ===== src/Inventory/Holdings.antt =====
-- How much of a product the reservations hold.
use micromart.Prelude.{
  ℕ, ◌+◌, ◌≡◌, refl, false, true, List, [], ◌∷◌, ◌++◌, ◌&&◌, arith, ◌==◌, if◌then◌else◌, filter,
}
use micromart.Sql.Tables.{update_all}
use micromart.Inventory.Entity.{StockReservation, ReservationStatus, is_reserved}
use micromart.Inventory.Stock.{is_held_by}

-- The quantity of product `k` in a list of reservations, whatever their status.
unfoldable pub total : ℕ → List StockReservation → ℕ
total k [] = 0
total k (r ∷ rs) = (if r.product_id == k then r.quantity else 0) + total k rs

-- The quantity of product `k` that reservations with status RESERVED hold.
unfoldable pub held : ℕ → List StockReservation → ℕ
held k [] = 0
held k (r ∷ rs) =
    (if is_reserved r.status && (r.product_id == k) then r.quantity else 0) + held k rs

pub held-append :
    (k : ℕ) (rs qs : List StockReservation) → held k (rs ++ qs) ≡ held k rs + held k qs
unfolding held
held-append k [] qs = omega arith
held-append k (r ∷ rs) qs = omega (arith, held-append k rs qs)

-- Settling an order takes away what its reservations held, and nothing else.
pub held-mark :
    (k o now : ℕ) (st : ReservationStatus) (rs : List StockReservation)
    → is_reserved st ≡ false
    → held k (update_all (is_held_by o) (λ r. record r { status = st; updated_at = now }) rs)
        + total k (filter (is_held_by o) rs)
      ≡ held k rs
unfolding held total
held-mark k o now st [] h = refl
held-mark k o now st (r ∷ rs) h = ground (arith, held-mark k o now st rs h)

-- The reservations of order `o` with one more row of it.
pub total-filter-append :
    (k o : ℕ) (rs : List StockReservation) (r : StockReservation)
    → is_held_by o r ≡ true
    → total k (filter (is_held_by o) (rs ++ r ∷ []))
      ≡ total k (filter (is_held_by o) rs) + (if r.product_id == k then r.quantity else 0)
unfolding total
total-filter-append k o [] r h = rw h (omega arith)
total-filter-append k o (q ∷ rs) r h = ground (arith, total-filter-append k o rs r h)
