-- ===== src/Inventory/Consistency.antt =====
-- The invariant of the inventory's tables, and what keeps it.
use mathlib.Core.Path.{subst}
use micromart.Prelude.{
  sym, ◌∙◌, ℕ, ◌+◌, ◌≤◌, ◌<◌, ◌≡◌, refl, ◌≢◌, inl, inr, false, Option, some, List, [], ◌∷◌, arith,
  String, ◌==◌, if◌then◌else◌, ℕ-cases, some-eq, ==_refl,
}
use micromart.Prelude.Int.{ℤ, pos, ◌+ℤ◌, ◌-ℤ◌, int32_half, wrap32}
use micromart.Sql.{World, Uuids}
use micromart.Sql.Keys.{IsPrimary}
use micromart.Inventory.Entity.{Product, StockReservation, reserved, Tables, find_product}
use micromart.Inventory.Stock.{StockItem, reserve_more, is_short, reserve_stock}
use micromart.Inventory.Holdings.{held, held-append}
use micromart.Inventory.Updates.{Updated, Both-some}
use micromart.Inventory.Invariants.{reserve_stock-KeepsTables}
use micromart.Inventory.Takes.{Takes}

-- A product's row agrees with the reservations that hold it, and no more is reserved than there
-- is.
abbrev pub Accounts : ℕ → Product → Type 0
Accounts n p =
    (p.stock_reserved ≡ n)
    × (p.stock_reserved ≤ p.stock_available)
    × (p.stock_available < int32_half)

-- Each product's row agrees with the count `n` of what is reserved.
abbrev pub AllAccounts : (ℕ → ℕ) → List Product → Type 0
AllAccounts n ps = (k : ℕ) (p : Product) → find_product k ps ≡ some p → Accounts (n k) p

pub record IsConsistent (t : Tables) : Type 0 where
  pub primary : IsPrimary (λ p. p.id) t.products
  pub accounted : AllAccounts (λ k. held k t.reservations) t.products

-- An UPDATE of product `k` that moves with the count of `k`, where the other counts stay.
pub Updated-AllAccounts :
    (set : Product → Option Product) (k : ℕ) (ps ps' : List Product) (n n' : ℕ → ℕ)
    → Updated set k ps ps'
    → AllAccounts n ps
    → ((j : ℕ) → j ≢ k → n' j ≡ n j)
    → ((p p' : Product)
        → find_product k ps ≡ some p
        → Accounts (n k) p
        → set p ≡ some p'
        → Accounts (n' k) p')
    → AllAccounts n' ps'
Updated-AllAccounts set k ps ps' n n' (_, others, one) acc stay move j p' found =
    elim (ℕ-cases j k) [
      | inl same ↦
          let (p, f, s) =
            Both-some (λ a b. set a ≡ some b) (find_product k ps) (find_product k ps') one
              (rw (← same) found) in
          rw same (move p p' f (acc k p f) s)
      | inr differs ↦ rw (stay j differs) (acc j p' (sym (others j differs) ∙ found))
    ]

-- The check in int32 is exact on such a row.
is_short-enough :
    (p : Product) (n : ℕ)
    → p.stock_reserved ≤ p.stock_available
    → p.stock_available < int32_half
    → is_short p (pos n) ≡ false
    → p.stock_reserved + n ≤ p.stock_available
unfolding wrap32 ◌-ℤ◌
is_short-enough p n le lt h = ground arith

reserve_more-Accounts :
    (m n now : ℕ) (p p' : Product)
    → Accounts m p
    → is_short p (pos n) ≡ false
    → reserve_more (pos n) now p ≡ some p'
    → Accounts (m + n) p'
unfolding ◌+ℤ◌
reserve_more-Accounts m n now p p' a short e = ground (arith, is_short-enough p n a.1 a.2 short)

held_one :
    (j k n : ℕ) (r : StockReservation)
    → r.status ≡ reserved
    → r.product_id ≡ k
    → r.quantity ≡ n
    → held j (r ∷ []) ≡ (if k == j then n else 0)
unfolding held
held_one j k n r s p q = ground arith

module _ {o k : ℕ} {q : ℤ} {t t' : Tables} (tk : Takes o k q t t') where
  open tk use {recorded, middle, before, now}

  -- The count of the product goes up by the quantity.
  pub held-Takes :
      (j : ℕ) → held j t'.reservations ≡ held j t.reservations + (if k == j then recorded.n else 0)
  held-Takes j =
      rw
        (
          recorded.added,
          held-append j middle.reservations (recorded.row ∷ []),
          tk.unchanged,
          held_one j k recorded.n recorded.row recorded.row_status recorded.row_product
              recorded.row_quantity,
        )
        refl

  Takes-move :
      (p p' : Product)
      → find_product k t.products ≡ some p
      → Accounts (held k t.reservations) p
      → reserve_more q now p ≡ some p'
      → Accounts (held k t'.reservations) p'
  Takes-move p p' f a e =
      rw (held-Takes k, ==_refl k)
        (reserve_more-Accounts (held k t.reservations) recorded.n now p p' a
          (subst (λ (x : ℤ). is_short p x ≡ false) recorded.whole
            (rw (some-eq f tk.found) tk.enough))
          (rw recorded.whole at e))

  -- A round of the loop keeps the tables consistent.
  Takes-IsConsistent : IsConsistent t → IsConsistent t'
  Takes-IsConsistent c = record {
    primary = rw recorded.kept (tk.updated.0 c.primary);
    accounted = rw recorded.kept (
        Updated-AllAccounts (reserve_more q now) k t.products middle.products
          (λ j. held j t.reservations) (λ j. held j t'.reservations) tk.updated c.accounted
          (λ j n. ground (arith, held-Takes j)) Takes-move);
  }

-- ReserveStock keeps the tables consistent, whatever is asked of it and however its calls end.
pub reserve_stock-IsConsistent :
    ⦃u : Uuids⦄ (order_id : String) (items : List StockItem) (w : World Tables)
    → IsConsistent w.tables
    → IsConsistent (reserve_stock order_id items w).1.tables
reserve_stock-IsConsistent =
    reserve_stock-KeepsTables IsConsistent (λ o k q t t' taken. Takes-IsConsistent taken)
