-- ===== src/Inventory/Calm.antt =====
-- The stock operations when every call is carried out and answered.
use mathlib.Core.Path.{subst, fun_ext}
use micromart.Sql.Tables.{update_all}
use micromart.Prelude.{
  ℕ, ◌+◌, ◌-◌, ◌≡◌, refl, inl, inr, ap, ◌∙◌, false, Option, some, List, [], ◌∷◌, arith, String,
  filter, Option-cases,
}
use micromart.Prelude.Int.{◌-ℤ◌}
use micromart.Prelude.Exec.{ok, err, >>=-ok}
use micromart.Sql.{Uuids, statement, calm}
use micromart.Sql.Laws.{statement-calm, transaction-calm, transaction-calm_err}
use micromart.Sql.Keys.{IsPrimary, update_key_total, update_key-none}
use micromart.Inventory.Entity.{
  Product, StockReservation, ReservationStatus, is_reserved, released, decremented, Tables, other,
  invalid_reservation, find_product,
}
use micromart.Inventory.Stock.{
  reserve_less, take_stock, update_product, update_each, is_held_by, settle, settle_rows,
  select_held, close_rows, mark, release_stock, decrement_stock,
}
use micromart.Inventory.Holdings.{held, total, held-mark}
use micromart.Inventory.Updates.{update_product-Updated, reserve_less_keeps, take_stock_keeps}
use micromart.Inventory.Consistency.{Accounts, AllAccounts, IsConsistent, Updated-AllAccounts}
use micromart.Inventory.Settlement.{reserve_less_lowers, take_stock_lowers}

module _ ⦃u : Uuids⦄ (id : String) (o : ℕ) (po : u.parse id ≡ some o) where
  select_held-calm :
      (t : Tables) (us : ℕ → ℕ) (now : ℕ) {rs : List StockReservation}
      → filter (is_held_by o) t.reservations ≡ rs
      → select_held id (calm t us now) ≡ (ok rs, calm t us now)
  unfolding select_held
  select_held-calm t us now rows = statement-calm other _ t us now (rw (po, rows))

  close_rows-calm :
      (st : ReservationStatus) (t : Tables) (us : ℕ → ℕ) (now : ℕ)
      → close_rows st id (calm t us now) ≡ (
        ok tt,
        calm
            (record t {
              reservations =
                  update_all
                    (is_held_by o)
                    (λ r. record r { status = st; updated_at = now })
                    t.reservations;
            })
            us
            now,
      )
  unfolding close_rows mark
  close_rows-calm st t us now = statement-calm other _ t us now (rw po)

module _ (set : ℕ → ℕ → Product → Option Product)
    (keeps : (q now : ℕ) (a b : Product) → set q now a ≡ some b → b.id ≡ a.id)
    (lowers : (q m now : ℕ) (p p' : Product)
      → Accounts (q + m) p
      → set q now p ≡ some p'
      → Accounts m p')
    (possible : (q m now : ℕ) (p : Product)
      → Accounts (q + m) p
      → (p' : Product) × (set q now p ≡ some p')) where
  update_product-calm :
      (k q m : ℕ) (t : Tables) (us : ℕ → ℕ) (now : ℕ)
      → IsPrimary (λ p. p.id) t.products
      → ((p : Product) → find_product k t.products ≡ some p → Accounts (q + m) p)
      → (ps : List Product) × (update_product k (set q) (calm t us now)
          ≡ some (tt, calm (record t { products = ps }) us now))
  unfolding update_product
  update_product-calm k q m t us now prim acc = elim (Option-cases (find_product k t.products)) [
    | inl missing ↦ (
      t.products,
      rw (update_key-none (λ p. p.id) (set q now) (keeps q now) k t.products missing),
    )
    | inr (p, f) ↦
        let (p', e) = possible q m now p (acc p f) in
        let (ps, made) =
          update_key_total (λ p. p.id) (set q now) (keeps q now) k t.products prim f e in
        (ps, rw made)
  ]

  update_each-calm :
      (base : ℕ → ℕ) (rs : List StockReservation) (t : Tables) (us : ℕ → ℕ) (now : ℕ)
      → IsPrimary (λ p. p.id) t.products
      → AllAccounts (λ j. total j rs + base j) t.products
      → (ps : List Product) × (update_each set rs (calm t us now)
          ≡ (ok tt, calm (record t { products = ps }) us now))
  unfolding update_each total
  update_each-calm base [] t us now prim acc = (t.products, refl)
  update_each-calm base (r ∷ rs) t us now prim acc =
      let (ps, e) =
        update_product-calm r.product_id r.quantity (total r.product_id rs + base r.product_id) t us
          now prim (λ p f. ground (arith, acc r.product_id p f)) in
      let t1 : Tables = record t { products = ps } in
      let (updated, _) =
        update_product-Updated (set r.quantity) (keeps r.quantity) r.product_id (calm t us now) e in
      let (ps', e') = update_each-calm base rs t1 us now (updated.0 prim) (
        Updated-AllAccounts _ r.product_id _ _ _ (λ j. total j rs + base j) updated acc
          (λ j n. ground arith)
          (λ p p' f a s.
            lowers r.quantity (total r.product_id rs + base r.product_id) now p p' (ground arith)
              s)) in
      (
        ps',
        >>=-ok (statement other (update_product r.product_id (set r.quantity)))
              (λ _. update_each set rs) (calm t us now) (statement-calm other _ t us now e)
            ∙ e',
      )

  module _ ⦃u : Uuids⦄ (id : String) (o : ℕ) (po : u.parse id ≡ some o) where
    -- A settlement of an order that holds something returns.
    settle-calm :
        (st : ReservationStatus) (t : Tables) (us : ℕ → ℕ) (now : ℕ) {r : StockReservation}
        {rs : List StockReservation}
        → is_reserved st ≡ false
        → IsConsistent t
        → filter (is_held_by o) t.reservations ≡ r ∷ rs
        → (t' : Tables) × (settle set st id (calm t us now) ≡ (ok tt, calm t' us now))
    settle-calm st t us now {r} {rs} closed c rows =
        let after =
          update_all (is_held_by o) (λ r. record r { status = st; updated_at = now })
            t.reservations in
        let sums : (j : ℕ) → held j t.reservations ≡ total j (r ∷ rs) + held j after =
          λ j. omega (arith, held-mark j o now st t.reservations closed, ap (total j) rows) in
        let (ps, e) =
          update_each-calm (λ j. held j after) (r ∷ rs) t us now c.primary
            (subst (λ (n : ℕ → ℕ). AllAccounts n t.products) (fun_ext sums) c.accounted) in
        let t1 : Tables = record t { products = ps } in
        (
          record { products = ps; reservations = after },
          >>=-ok (select_held id) (settle_rows set st id) (calm t us now)
                (select_held-calm id o po t us now rows)
              ∙ >>=-ok (update_each set (r ∷ rs)) (λ _. close_rows st id) (calm t us now) e
              ∙ close_rows-calm id o po st t1 us now,
        )

reserve_less_possible :
    (q m now : ℕ) (p : Product)
    → Accounts (q + m) p
    → (p' : Product) × (reserve_less q now p ≡ some p')
unfolding ◌-ℤ◌
reserve_less_possible q m now p a =
    (record p { stock_reserved = p.stock_reserved - q; updated_at = now }, ground arith)

take_stock_possible :
    (q m now : ℕ) (p : Product)
    → Accounts (q + m) p
    → (p' : Product) × (take_stock q now p ≡ some p')
unfolding ◌-ℤ◌
take_stock_possible q m now p a = (
  record p {
    stock_available = p.stock_available - q;
    stock_reserved = p.stock_reserved - q;
    updated_at = now;
  },
  ground arith,
)

module _ ⦃u : Uuids⦄ (id : String) (o : ℕ) (po : u.parse id ≡ some o) (t : Tables) (us : ℕ → ℕ)
    (now : ℕ) {r : StockReservation} {rs : List StockReservation} (c : IsConsistent t)
    (rows : filter (is_held_by o) t.reservations ≡ r ∷ rs) where
  -- In consistent tables no constraint stands in the way of a release: for an order that holds
  -- something, ReleaseStock returns, if every call is carried out and answered.
  pub release_stock-calm :
      (t' : Tables) × (release_stock id (calm t us now) ≡ (ok tt, calm t' us now))
  unfolding release_stock
  release_stock-calm =
      let (t', e) =
        settle-calm reserve_less reserve_less_keeps reserve_less_lowers reserve_less_possible id o
          po released t us now refl c rows in
      (t', transaction-calm other _ t t' us us now now e)

  -- In consistent tables no constraint stands in the way of a decrement: for an order that holds
  -- something, DecrementStock returns, if every call is carried out and answered.
  pub decrement_stock-calm :
      (t' : Tables) × (decrement_stock id (calm t us now) ≡ (ok tt, calm t' us now))
  unfolding decrement_stock
  decrement_stock-calm =
      let (t', e) =
        settle-calm take_stock take_stock_keeps take_stock_lowers take_stock_possible id o po
          decremented t us now refl c rows in
      (t', transaction-calm other _ t t' us us now now e)

module _ ⦃u : Uuids⦄ (id : String) (o : ℕ) (po : u.parse id ≡ some o) (t : Tables) (us : ℕ → ℕ)
    (now : ℕ) (rows : filter (is_held_by o) t.reservations ≡ []) where
  -- For an order that holds nothing, so after a first release or a decrement, ReleaseStock answers
  -- that the reservation is invalid and changes nothing, if every call is carried out and answered.
  pub release_stock_again :
      release_stock id (calm t us now) ≡ (err invalid_reservation, calm t us now)
  unfolding release_stock
  release_stock_again = transaction-calm_err other _ t t us us now now (
      >>=-ok (select_held id) (settle_rows reserve_less released id) (calm t us now)
        (select_held-calm id o po t us now rows))

  -- For an order that holds nothing DecrementStock answers that the reservation is invalid and
  -- changes nothing, if every call is carried out and answered.
  pub decrement_stock_again :
      decrement_stock id (calm t us now) ≡ (err invalid_reservation, calm t us now)
  unfolding decrement_stock
  decrement_stock_again = transaction-calm_err other _ t t us us now now (
      >>=-ok (select_held id) (settle_rows take_stock decremented id) (calm t us now)
        (select_held-calm id o po t us now rows))
