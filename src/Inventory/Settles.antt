-- ===== src/Inventory/Settles.antt =====
-- What the bodies of ReleaseStock and DecrementStock do to the tables, if they return.
use micromart.Prelude.{ap, ◌∙◌, ℕ, ◌≡◌, Option, some, List, [], ◌∷◌, arith, String, filter, some-eq}
use micromart.Prelude.Exec.{ok, >>=-eq-ok, ◌>>◌}
use micromart.Sql.{World, Uuids, statement}
use micromart.Sql.Laws.{statement-eq-ok}
use micromart.Sql.Tables.{and_then-eq-some, update_all}
use micromart.Inventory.Entity.{Product, StockReservation, ReservationStatus, Tables, other}
use micromart.Inventory.Stock.{
  update_product, update_each, mark, is_held_by, select_held, close_rows, settle_rows, or_invalid,
  settle,
}
use micromart.Inventory.Updates.{update_product-Updated}

-- What the statements around the loop do, if they return.
or_invalid-eq-ok :
    (rs : List StockReservation) (w : World Tables) {x : Unit {0}} {w' : World Tables}
    → or_invalid rs w ≡ (ok x, w')
    → w'.tables ≡ w.tables
or_invalid-eq-ok [] w h = cc
or_invalid-eq-ok (r ∷ rs) w {x} {w'} h = ground arith

module _ ⦃u : Uuids⦄ where
  select_held-eq-ok :
      (id : String) (w : World Tables) {rs : List StockReservation} {w' : World Tables}
      → select_held id w ≡ (ok rs, w')
      → (o : ℕ) × (u.parse id ≡ some o)
        × (filter (is_held_by o) w.tables.reservations ≡ rs)
        × (w'.tables ≡ w.tables)
  unfolding select_held
  select_held-eq-ok id w {rs} {w'} h =
      let (o, e, h1) = and_then-eq-some _ _ (statement-eq-ok _ _ w h) in
      (o, e, ground arith, ground arith)

  close_rows-eq-ok :
      (st : ReservationStatus) (id : String) (w : World Tables) {x : Unit {0}} {w' : World Tables}
      → close_rows st id w ≡ (ok x, w')
      → (o : ℕ) × (u.parse id ≡ some o)
        × (w'.tables.reservations
            ≡ update_all
                (is_held_by o)
                (λ r. record r { status = st; updated_at = w.now })
                w.tables.reservations)
        × (w'.tables.products ≡ w.tables.products)
  unfolding close_rows mark
  close_rows-eq-ok st id w {x} {w'} h =
      let (o, e, h1) = and_then-eq-some _ _ (statement-eq-ok _ _ w h) in
      (o, e, ground arith, ground arith)

module _ (set : ℕ → ℕ → Product → Option Product) where
  -- The loop touches no reservation.
  update_each-reservations :
      (keeps : (q now : ℕ) (a b : Product) → set q now a ≡ some b → b.id ≡ a.id)
      (rs : List StockReservation) (w : World Tables) {x : Unit {0}} {w' : World Tables}
      → update_each set rs w ≡ (ok x, w')
      → w'.tables.reservations ≡ w.tables.reservations
  unfolding update_each
  update_each-reservations keeps [] w {x} {w'} h = ground arith
  update_each-reservations keeps (r ∷ rs) w h =
      let (_, w1, e, h1) =
        >>=-eq-ok (statement other (update_product r.product_id (set r.quantity)))
          (λ _. update_each set rs) w h in
      let (_, same) =
        update_product-Updated (set r.quantity) (keeps r.quantity) r.product_id _
          (statement-eq-ok _ _ w e) in
      update_each-reservations keeps rs w1 h1 ∙ same

  -- What the body of ReleaseStock or DecrementStock does, if it returns: the loop runs over the
  -- reservations of order `o` that are held, and those are closed.
  pub record Settles (st : ReservationStatus) (o : ℕ) (t t' : Tables) : Type 0 where
    pub start : World Tables
    pub stop : World Tables
    pub now : ℕ
    pub start_tables : start.tables ≡ t
    pub loop : update_each set (filter (is_held_by o) t.reservations) start ≡ (ok tt, stop)
    pub closed :
        t'.reservations
        ≡ update_all (is_held_by o) (λ r. record r { status = st; updated_at = now }) t.reservations
    pub kept : t'.products ≡ stop.tables.products

  pub settle-Settles :
      ⦃u : Uuids⦄ (keeps : (q now : ℕ) (a b : Product) → set q now a ≡ some b → b.id ≡ a.id)
      (st : ReservationStatus) (id : String) (w : World Tables) {x : Unit {0}} {w' : World Tables}
      → settle set st id w ≡ (ok x, w')
      → (o : ℕ) × (u.parse id ≡ some o) × Settles st o w.tables w'.tables
  settle-Settles keeps st id w {x} {w'} h =
      let (rs, w1, e1, h1) = >>=-eq-ok (select_held id) (settle_rows set st id) w h in
      let (_, w2, e2, h2) =
        >>=-eq-ok (or_invalid rs) (λ _. update_each set rs >> close_rows st id) w1 h1 in
      let (_, w3, e3, h3) = >>=-eq-ok (update_each set rs) (λ _. close_rows st id) w2 h2 in
      let (o, po, held_rows, t1) = select_held-eq-ok id w e1 in
      let (o', po', marked, kept) = close_rows-eq-ok st id w3 h3 in
      let t2 : w2.tables ≡ w.tables = or_invalid-eq-ok rs w1 e2 ∙ t1 in
      let same : w3.tables.reservations ≡ w.tables.reservations =
        update_each-reservations keeps rs w2 e3 ∙ ap (λ (t : Tables). t.reservations) t2 in
      (
        o,
        po,
        record {
          start = w2;
          stop = w3;
          now = w3.now;
          start_tables = t2;
          loop = rw held_rows e3;
          closed = rw (some-eq po po', ← same) marked;
          kept = kept;
        },
      )
