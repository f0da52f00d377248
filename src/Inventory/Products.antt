-- ===== src/Inventory/Products.antt =====
-- services/inventory/product_repository.go, CreateProduct, GetProduct and UpdateProduct.
use micromart.Prelude.{
  ℕ, zero, suc, String, Bool, true, false, if◌then◌else◌, Option, none, some, List, [], ◌∷◌, ◌++◌,
}
use micromart.Prelude.Int.{ℤ}
use micromart.Prelude.Exec.{Exec, ◌>>=◌}
use micromart.Sql.{World, Uuids, statement, draw_uuid}
use micromart.Sql.Tables.{check_int, check_bigint, and_then}
use micromart.Inventory.Entity.{Product, Tables, Error, other, find_product}
use micromart.Inventory.Stock
use micromart.Inventory.Stock.{lock_product, or_not_found}

pub record CreateProductParams : Type 0 where
  pub name : String
  pub description : String
  pub category : String
  pub price_cents : ℤ  -- int64
  pub initial_stock : ℤ  -- int32

abbrev pub put_product : Option Product → Product → World Tables → Option (Product × World Tables)
put_product none p w = some (
  p,
  record (draw_uuid w) { tables = record w.tables { products = w.tables.products ++ p ∷ [] } },
)
put_product (some q) p w = none

abbrev pub new_product : CreateProductParams → ℕ → ℕ → World Tables → Product
new_product p price stock w = record {
  id = w.uuids 0;
  name = p.name;
  description = p.description;
  category = p.category;
  price_cents = price;
  stock_available = stock;
  stock_reserved = 0;
  active = true;
  created_at = w.now;
  updated_at = w.now;
}

abbrev pub put_new_product :
    CreateProductParams → ℕ → ℕ → World Tables → Option (Product × World Tables)
put_new_product p price stock w =
    put_product (find_product (w.uuids 0) w.tables.products) (new_product p price stock w) w

-- INSERT INTO products (name, description, category, price_cents, stock_available) ... RETURNING *
unfoldable pub insert_product : CreateProductParams → World Tables → Option (Product × World Tables)
insert_product p w =
    and_then (check_bigint p.price_cents)
      λ price. and_then (check_int p.initial_stock) λ stock. put_new_product p price stock w

-- (r *Repository) CreateProduct
unfoldable pub create_product : CreateProductParams → Exec (World Tables) Error Product
create_product p = statement other (insert_product p)

-- A nil pointer leaves the column as it is.
pub record UpdateProductParams : Type 0 where
  pub name : Option String
  pub description : Option String
  pub category : Option String
  pub price_cents : Option ℤ
  pub active : Option Bool

-- The columns that UpdateProduct can set, and its arguments.
pub data Column : Type 0 where
  name_column description_column category_column price_column active_column : Column

pub data Arg : Type 0 where
  text_arg : String → Arg
  int_arg : ℤ → Arg
  bool_arg : Bool → Arg

-- setClauses, with `fmt.Sprintf("column = $%d", argIdx)` as the column and the number, args and argIdx.
pub record Builder : Type 0 where
  pub set_clauses : List (Column × ℕ)
  pub args : List Arg
  pub arg_idx : ℕ

abbrev pub empty_builder : Builder
empty_builder = record { set_clauses = []; args = []; arg_idx = 1 }

-- `if p.X != nil { setClauses = append(setClauses, ...); args = append(args, *p.X); argIdx++ }`
abbrev pub add_clause : {A : Type 0} → Column → (A → Arg) → Option A → Builder → Builder
add_clause column arg none b = b
add_clause column arg (some a) b = record {
  set_clauses = b.set_clauses ++ (column, b.arg_idx) ∷ [];
  args = b.args ++ arg a ∷ [];
  arg_idx = suc b.arg_idx;
}

unfoldable pub set_clauses : UpdateProductParams → Builder
set_clauses p = add_clause active_column bool_arg p.active (
    add_clause price_column int_arg p.price_cents (
      add_clause category_column text_arg p.category (
        add_clause description_column text_arg p.description
          (add_clause name_column text_arg p.name empty_builder))))

-- The argument that `$i` stands for: the first is $1.
unfoldable pub placeholder : List Arg → ℕ → Option Arg
placeholder [] i = none
placeholder (a ∷ rest) zero = none
placeholder (a ∷ rest) (suc zero) = some a
placeholder (a ∷ rest) (suc (suc i)) = placeholder rest (suc i)

-- A value of another type than the column's is refused.
abbrev pub assign : Column → Arg → Product → Option Product
assign name_column (text_arg s) p = some (record p { name = s })
assign description_column (text_arg s) p = some (record p { description = s })
assign category_column (text_arg s) p = some (record p { category = s })
assign price_column (int_arg c) p =
    and_then (check_bigint c) λ n. some (record p { price_cents = n })
assign active_column (bool_arg b) p = some (record p { active = b })
assign column arg p = none

abbrev pub assign_placeholder : List Arg → Column × ℕ → Product → Option Product
assign_placeholder args (column, i) p = and_then (placeholder args i) λ arg. assign column arg p

-- The SET clause: the columns of the list, and updated_at = NOW().
unfoldable pub apply_clauses : List (Column × ℕ) → List Arg → ℕ → Product → Option Product
apply_clauses [] args now p = some (record p { updated_at = now })
apply_clauses (c ∷ cs) args now p =
    and_then (assign_placeholder args c p) (apply_clauses cs args now)

abbrev pub is_nil : {A : Type 0} → List A → Bool
is_nil [] = true
is_nil (x ∷ xs) = false

abbrev pub returning : ℕ → Unit {0} × World Tables → Option (Option Product × World Tables)
returning k (_, w) = some (find_product k w.tables.products, w)

module _ ⦃u : Uuids⦄ where
  -- (r *Repository) GetProduct. Its SELECT is that of lock_product without the lock.
  unfoldable pub get_product : String → Exec (World Tables) Error Product
  get_product id = lock_product id >>= or_not_found

  -- The id of `WHERE id = $i`.
  abbrev pub id_of_arg : Arg → Option ℕ
  id_of_arg (text_arg s) = u.parse s
  id_of_arg arg = none

  abbrev pub id_at : List Arg → ℕ → Option ℕ
  id_at args i = and_then (placeholder args i) id_of_arg

  -- UPDATE products SET ... WHERE id = $i RETURNING *
  abbrev pub update_row :
      (ℕ → Product → Option Product) → ℕ → World Tables → Option (Option Product × World Tables)
  update_row set k w = and_then (Stock.update_product k set w) (returning k)

  unfoldable pub update_returning :
      List (Column × ℕ) → List Arg → ℕ → Exec (World Tables) Error (Option Product)
  update_returning cs args i =
      statement other λ w. and_then (id_at args i) λ k. update_row (apply_clauses cs args) k w

  -- From `if len(setClauses) == 0` on.
  abbrev pub update_with : String → Builder → Exec (World Tables) Error Product
  update_with id b =
      if is_nil b.set_clauses
      then get_product id
      else (update_returning b.set_clauses (b.args ++ text_arg id ∷ []) b.arg_idx >>= or_not_found)

  -- (r *Repository) UpdateProduct
  unfoldable pub update_product : String → UpdateProductParams → Exec (World Tables) Error Product
  update_product id p = update_with id (set_clauses p)
