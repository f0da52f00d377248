-- ===== src/Inventory/CalmReserve.antt =====
-- ReserveStock when every call is carried out and answered.
use micromart.Prelude.{
  ℕ, suc, ◌≡◌, refl, ◌⊎◌, inl, inr, ◌∙◌, Option, none, some, List, [], ◌∷◌, ◌++◌, String,
  Option-cases, Bool-cases,
}
use micromart.Prelude.Int.{ℤ}
use micromart.Prelude.Exec.{ok, err, ◌>>=◌, ◌>>◌, pure, Result-cases, >>=-ok, >>=-err}
use micromart.Sql.{Uuids, calm}
use micromart.Sql.Laws.{
  transaction-calm, transaction-calm_err, Calmly, bind-Calmly, statement-Calmly, StaysCalm,
}
use micromart.Sql.Tables.{check_positive}
use micromart.Sql.Keys.{update_key}
use micromart.Inventory.Entity.{
  Product, StockReservation, reserved, Tables, Error, other, insufficient_stock, find_product,
}
use micromart.Inventory.Stock.{
  StockItem, reserve_more, update_product, insert_reservation, admit, lock_product, add_reserved,
  record_reserved, is_short, or_not_found, reserve_locked, reserve_item, reserve_items,
  reserve_stock,
}

update_product-StaysCalm :
    (k : ℕ) (f : ℕ → Product → Option Product) → StaysCalm (update_product k f)
unfolding update_product
update_product-StaysCalm k f t us n =
    elim (Option-cases (update_key (λ p. p.id) k (f n) t.products)) [
      | inl refused ↦ inl (rw refused)
      | inr (ps, made) ↦ inr (tt, record t { products = ps }, us, rw made)
    ]

admit-StaysCalm :
    (r : Option StockReservation) (p : Option Product) (row : StockReservation) (t : Tables)
    (us : ℕ → ℕ) (n : ℕ)
    → (admit r p row (calm t us n) ≡ none)
      ⊎ ((a : Unit {0}) × (t' : Tables) × (us' : ℕ → ℕ) × (admit r p row (calm t us n)
            ≡ some (a, calm t' us' n)))
admit-StaysCalm none (some p) row t us n =
    inr (tt, record t { reservations = t.reservations ++ row ∷ [] }, us, refl)
admit-StaysCalm none none row t us n = inl refl
admit-StaysCalm (some r) none row t us n = inl refl
admit-StaysCalm (some r) (some p) row t us n = inl refl

insert_reservation-StaysCalm : (o k : ℕ) (q : ℤ) → StaysCalm (insert_reservation o k q reserved)
unfolding insert_reservation
insert_reservation-StaysCalm o k q t us n = elim (Option-cases (check_positive q)) [
  | inl refused ↦ inl (rw refused)
  | inr (m, fits) ↦ rw fits (admit-StaysCalm _ _ _ t (λ i. us (suc i)) n)
]

module _ ⦃u : Uuids⦄ where
  lock_product-Calmly : (id : String) → Calmly (lock_product id)
  unfolding lock_product
  lock_product-Calmly id = statement-Calmly other _ λ t us n. elim (Option-cases (u.parse id)) [
    | inl bad ↦ inl (rw bad)
    | inr (k, good) ↦ inr (find_product k t.products, t, us, rw good)
  ]

  add_reserved-Calmly : (item : StockItem) → Calmly (add_reserved item)
  unfolding add_reserved
  add_reserved-Calmly item = statement-Calmly other _ λ t us n.
      elim (Option-cases (u.parse item.product_id)) [
        | inl bad ↦ inl (rw bad)
        | inr (k, good) ↦ rw good (update_product-StaysCalm k (reserve_more item.quantity) t us n)
      ]

  record_reserved-Calmly : (id : String) (item : StockItem) → Calmly (record_reserved id item)
  unfolding record_reserved
  record_reserved-Calmly id item = statement-Calmly other _ λ t us n.
      elim (Option-cases (u.parse id)) [
        | inl bad ↦ inl (rw bad)
        | inr (o, good) ↦ rw good (elim (Option-cases (u.parse item.product_id)) [
          | inl bad ↦ inl (rw bad)
          | inr (k, good') ↦ rw good' (insert_reservation-StaysCalm o k item.quantity t us n)
        ])
      ]

  or_not_found-Calmly : (found : Option Product) → Calmly (or_not_found found)
  or_not_found-Calmly none t us n = (err Error.not_found, t, us, refl)
  or_not_found-Calmly (some p) t us n = (ok p, t, us, refl)

  reserve_locked-Calmly :
      (id : String) (item : StockItem) (p : Product) → Calmly (reserve_locked id item p)
  reserve_locked-Calmly id item p t us n = elim (Bool-cases (is_short p item.quantity)) [
    | inl short ↦ (err insufficient_stock, t, us, rw short)
    | inr enough ↦ rw enough (
        bind-Calmly (add_reserved item) (λ _. record_reserved id item) (add_reserved-Calmly item)
          (λ _. record_reserved-Calmly id item) t us n)
  ]

  reserve_item-Calmly : (id : String) (item : StockItem) → Calmly (reserve_item id item)
  unfolding reserve_item
  reserve_item-Calmly id item =
      bind-Calmly (lock_product item.product_id)
        (λ found. or_not_found found >>= reserve_locked id item)
        (lock_product-Calmly item.product_id)
        λ found.
          bind-Calmly (or_not_found found) (reserve_locked id item) (or_not_found-Calmly found)
            (reserve_locked-Calmly id item)

  reserve_items-Calmly : (id : String) (items : List StockItem) → Calmly (reserve_items id items)
  unfolding reserve_items
  reserve_items-Calmly id [] t us n = (ok tt, t, us, refl)
  reserve_items-Calmly id (item ∷ items) t us n =
      bind-Calmly (reserve_item id item) (λ _. reserve_items id items) (reserve_item-Calmly id item)
        (λ _. reserve_items-Calmly id items) t us n

  -- The two ways in which ReserveStock can end.
  abbrev pub ReserveEnds : String → List StockItem → Tables → (ℕ → ℕ) → ℕ → Type 0
  ReserveEnds id items t us n =
      ((t' : Tables) × (us' : ℕ → ℕ) × (reserve_stock id items (calm t us n)
          ≡ (ok id, calm t' us' n)))
      ⊎ ((x : Error) × (us' : ℕ → ℕ) × (reserve_stock id items (calm t us n)
            ≡ (err x, calm t us' n)))

  -- ReserveStock returns the order's id as the reservation's, or an error that leaves the tables as
  -- they were, if every call is carried out and answered.
  pub reserve_stock-calm :
      (id : String) (items : List StockItem) (t : Tables) (us : ℕ → ℕ) (n : ℕ)
      → ReserveEnds id items t us n
  unfolding reserve_stock
  reserve_stock-calm id items t us n =
      let (r, t', us', e) = reserve_items-Calmly id items t us n in
      elim (Result-cases r) [
        | inl (x, good) ↦ inl (
          t',
          us',
          transaction-calm other (reserve_items id items >> pure id) t t' us us' n n (
              >>=-ok (reserve_items id items) (λ _. pure id) (calm t us n)
                (e ∙ (λ i. (good i, calm t' us' n)))),
        )
        | inr (x, bad) ↦ inr (
          x,
          us',
          transaction-calm_err other (reserve_items id items >> pure id) t t' us us' n n (
              >>=-err (reserve_items id items) (λ _. pure id) (calm t us n)
                (e ∙ (λ i. (bad i, calm t' us' n)))),
        )
      ]
