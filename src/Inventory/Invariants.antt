-- ===== src/Inventory/Invariants.antt =====
-- How an invariant of the tables is shown of the operations of services/inventory: of the rows that
-- each one changes alone.
use mathlib.Core.Path.{subst}
use micromart.Prelude.{
  Bool, suc, ◌∙◌, ap, ℕ, ◌≡◌, inl, inr, Option, none, some, List, [], ◌∷◌, ◌++◌, arith, String,
  Bool-cases,
}
use micromart.Prelude.Int.{ℤ}
use micromart.Prelude.Exec.{Result, ok, Exec, >>=-eq-ok, ◌>>◌, pure, with_state}
use micromart.Prelude.Keeps.{Keeps, >>=-Keeps}
use micromart.Sql.{World, Uuids, statement, transaction, begun}
use micromart.Sql.Laws.{statement-cases, transaction-cases}
use micromart.Sql.Tables.{and_then-eq-some, and_then}
use micromart.Paging.Cursor.{decode_cursor}
use micromart.Paging.Page.{list_page, page_query, page_size_of, cut_page, bound_of, select_rows}
use micromart.Inventory.Entity.{Product, ReservationStatus, Tables, Error, other, find_product}
use micromart.Inventory.Stock
use micromart.Inventory.Stock.{
  StockItem, reserve_item, reserve_items, reserve_stock, settle, lock_product, or_not_found,
}
use micromart.Inventory.Updates.{Updated, update_product-Updated}
use micromart.Inventory.Products.{
  Column, name_column, description_column, category_column, price_column, active_column, Arg,
  text_arg, int_arg, bool_arg, placeholder, assign, assign_placeholder, apply_clauses, is_nil,
  id_at, returning, get_product, update_row, update_returning, set_clauses, update_product,
  UpdateProductParams,
}
use micromart.Inventory.Takes.{Takes, reserve_item-Takes}
use micromart.Inventory.Settles.{Settles, settle-Settles}

-- Of a row: its key and its stock stay.
abbrev pub KeepsStock : Product → Product → Type 0
KeepsStock p p' =
    (p'.id ≡ p.id)
    × (p'.stock_available ≡ p.stock_available)
    × (p'.stock_reserved ≡ p.stock_reserved)

assign-keeps : (c : Column) (a : Arg) (p p' : Product) → assign c a p ≡ some p' → KeepsStock p p'
assign-keeps name_column (text_arg s) p p' e = ground arith
assign-keeps description_column (text_arg s) p p' e = ground arith
assign-keeps category_column (text_arg s) p p' e = ground arith
assign-keeps price_column (int_arg c) p p' e = ground arith
assign-keeps active_column (bool_arg b) p p' e = ground arith
assign-keeps _ _ p p' e = cc

apply_clauses-keeps :
    (cs : List (Column × ℕ)) (args : List Arg) (now : ℕ) (p p' : Product)
    → apply_clauses cs args now p ≡ some p'
    → KeepsStock p p'
unfolding apply_clauses
apply_clauses-keeps [] args now p p' e = ground arith
apply_clauses-keeps ((c, n) ∷ cs) args now p p' e =
    let (p1, e1, e2) =
      and_then-eq-some (assign_placeholder args (c, n) p) (apply_clauses cs args now) e in
    let (a, _, e3) = and_then-eq-some (placeholder args n) (λ a. assign c a p) e1 in
    let (i, v, r) = apply_clauses-keeps cs args now p1 p' e2 in
    let (i1, v1, r1) = assign-keeps c a p p1 e3 in (i ∙ i1, v ∙ v1, r ∙ r1)

module _ (P : Tables → Type 0) where
  -- Tables whose invariant a call keeps, however it ends.
  abbrev pub KeepsTables : {A : Type 0} → Exec (World Tables) Error A → Type 0
  KeepsTables m = Keeps (λ w. P w.tables) m

  answer_lem :
      {A B : Type 0} (o : Option A) (f : A → World Tables → B) (w : World Tables) {b : B}
      {w' : World Tables}
      → and_then {B = B × World Tables} o (λ a. some (f a w, w)) ≡ some (b, w')
      → P w.tables
      → P w'.tables
  answer_lem none f w h p = cc
  answer_lem (some a) f w {w'} h p =
      let same : w ≡ w' = ground arith in subst (λ (v : World Tables). P v.tables) same p

  -- A statement that reads.
  select-KeepsTables :
      {A B : Type 0} (o : Option A) (f : A → World Tables → B)
      → KeepsTables (statement other (λ w. and_then o λ a. some (f a w, w)))
  select-KeepsTables o f w p =
      elim (statement-cases other (λ w. and_then o λ a. some (f a w, w)) w) [
        | inl same ↦ rw same p
        | inr (b, w', made, left) ↦ rw left (answer_lem o f (begun w) made p)
      ]

  or_not_found-KeepsTables : (found : Option Product) → KeepsTables (or_not_found found)
  or_not_found-KeepsTables none w p = p
  or_not_found-KeepsTables (some product) w p = p

  module _ ⦃u : Uuids⦄ where
    module _ (step : (o k : ℕ) (q : ℤ) (t t' : Tables) → Takes o k q t t' → P t → P t') where
      reserve_items_lem :
          (order_id : String) (items : List StockItem) (w : World Tables) {x : Unit {0}}
          {w' : World Tables}
          → reserve_items order_id items w ≡ (ok x, w')
          → P w.tables
          → P w'.tables
      unfolding reserve_items
      reserve_items_lem order_id [] w {x} {w'} h p =
          let same : w ≡ w' = ground arith in subst (λ (v : World Tables). P v.tables) same p
      reserve_items_lem order_id (item ∷ items) w h p =
          let (_, w1, e, h1) =
            >>=-eq-ok (reserve_item order_id item) (λ _. reserve_items order_id items) w h in
          let (o, k, _, _, taken) = reserve_item-Takes order_id item w e in
          reserve_items_lem order_id items w1 h1 (step o k _ _ _ taken p)

      -- What a round of the loop keeps, ReserveStock keeps.
      pub reserve_stock-KeepsTables :
          (order_id : String) (items : List StockItem) → KeepsTables (reserve_stock order_id items)
      unfolding reserve_stock
      reserve_stock-KeepsTables order_id items w p =
          elim (transaction-cases other (reserve_items order_id items >> pure order_id) w) [
            | inl same ↦ rw same p
            | inr (a, e, left) ↦
                let (_, w1, e1, h1) =
                  >>=-eq-ok (reserve_items order_id items) (λ _. pure order_id) (begun w)
                    (with_state _ e) in
                rw left (
                  subst (λ (v : World Tables). P v.tables)
                    (ap (λ (r : Result Error String × World Tables). r.1) h1)
                    (reserve_items_lem order_id items (begun w) e1 p))
          ]

    -- What the body of ReleaseStock or DecrementStock keeps if it returns, its transaction keeps.
    pub settle-KeepsTables :
        (set : ℕ → ℕ → Product → Option Product)
        (keeps : (q now : ℕ) (a b : Product) → set q now a ≡ some b → b.id ≡ a.id)
        (st : ReservationStatus)
        → ((o : ℕ) (t t' : Tables) → Settles set st o t t' → P t → P t')
        → (id : String) → KeepsTables (transaction other (settle set st id))
    settle-KeepsTables set keeps st step id w p =
        elim (transaction-cases other (settle set st id) w) [
          | inl same ↦ rw same p
          | inr (a, e, left) ↦
              let (o, _, s) = settle-Settles set keeps st id (begun w) (with_state _ e) in
              rw left (step o _ _ s p)
        ]

    -- A page of ListProducts or SearchProducts.
    pub list_page-KeepsTables :
        (test : Product → Bool) (n : ℤ) (token : String)
        → KeepsTables (list_page (λ p. p.id) other (λ (t : Tables). t.products) test n token)
    unfolding list_page
    list_page-KeepsTables test n token =
        >>=-Keeps (λ w. P w.tables)
          (statement other
            (page_query (λ p. p.id) (λ t. t.products) test (page_size_of n) (decode_cursor token)))
          (λ rows. pure (cut_page (λ p. p.id) (page_size_of n) rows))
          (select-KeepsTables (bound_of (decode_cursor token))
            (λ c w. select_rows (λ p. p.id) test c (suc (page_size_of n)) w.tables.products))
          (λ rows w p. p)

    lock_product-KeepsTables : (id : String) → KeepsTables (lock_product id)
    unfolding lock_product
    lock_product-KeepsTables id =
        select-KeepsTables (u.parse id) (λ k w. find_product k w.tables.products)

    pub get_product-KeepsTables : (id : String) → KeepsTables (get_product id)
    unfolding get_product
    get_product-KeepsTables id =
        >>=-Keeps (λ w. P w.tables) (lock_product id) or_not_found (lock_product-KeepsTables id)
          or_not_found-KeepsTables

    -- What an UPDATE of a row keeps that leaves its key and its stock, UpdateProduct keeps.
    module _
        (step : (set : Product → Option Product) (k : ℕ) (t t' : Tables)
          → ((a b : Product) → set a ≡ some b → KeepsStock a b)
          → Updated set k t.products t'.products
          → t'.reservations ≡ t.reservations
          → P t
          → P t') where
      update_row_lem :
          (set : ℕ → Product → Option Product) (k : ℕ) (w : World Tables) {r : Option Product}
          {w' : World Tables}
          → ((now : ℕ) (a b : Product) → set now a ≡ some b → KeepsStock a b)
          → update_row set k w ≡ some (r, w')
          → P w.tables
          → P w'.tables
      update_row_lem set k w {r} {w'} keeps h p =
          let ((x, w1), e, h1) = and_then-eq-some (Stock.update_product k set w) (returning k) h in
          let (updated, same) =
            update_product-Updated set (λ now a b s. (keeps now a b s).0) k w e in
          let left : w1 ≡ w' = ground arith in
          subst (λ (v : World Tables). P v.tables) left
            (step (set w.now) k w.tables w1.tables (keeps w.now) updated same p)

      update_returning-KeepsTables :
          (cs : List (Column × ℕ)) (args : List Arg) (i : ℕ)
          → KeepsTables (update_returning cs args i)
      unfolding update_returning
      update_returning-KeepsTables cs args i w p =
          let set = apply_clauses cs args in
          elim (statement-cases other (λ w. and_then (id_at args i) λ k. update_row set k w) w) [
            | inl same ↦ rw same p
            | inr (r, w', made, left) ↦
                let (k, _, h) =
                  and_then-eq-some (id_at args i) (λ k. update_row set k (begun w)) made in
                rw left (
                  update_row_lem set k (begun w)
                    (λ now a b e. apply_clauses-keeps cs args now a b e) h p)
          ]

      pub update_product-KeepsTables :
          (id : String) (q : UpdateProductParams) → KeepsTables (update_product id q)
      unfolding update_product
      update_product-KeepsTables id q =
          let b = set_clauses q in
          let args = b.args ++ text_arg id ∷ [] in
          elim (Bool-cases (is_nil b.set_clauses)) [
            | inl nothing ↦ rw nothing (get_product-KeepsTables id)
            | inr something ↦ rw something (
                >>=-Keeps (λ w. P w.tables) (update_returning b.set_clauses args b.arg_idx)
                  or_not_found (update_returning-KeepsTables b.set_clauses args b.arg_idx)
                  or_not_found-KeepsTables)
          ]
