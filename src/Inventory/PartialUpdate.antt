-- ===== src/Inventory/PartialUpdate.antt =====
-- What UpdateProduct of services/inventory/product_repository.go does with the fields that are given.
use mathlib.Core.Path.{fun_ext}
use micromart.Prelude.{
  ℕ, String, ◌≡◌, refl, ap, sym, ◌∙◌, Bool, true, false, ◌&&◌, Option, none, some, List, [], ◌∷◌,
  ◌++◌, if◌then◌else◌, Option-cases, Bool-cases, inl, inr,
}
use micromart.Prelude.Int.{ℤ}
use micromart.Prelude.Exec.{Exec, ◌>>=◌}
use micromart.Sql.{World, Uuids, statement}
use micromart.Sql.Tables.{check_bigint, and_then, and_then-eq-some}
use micromart.Inventory.Entity.{Product, Tables, Error, other}
use micromart.Inventory.Stock.{or_not_found}
use micromart.Inventory.Products.{
  Column, name_column, description_column, category_column, price_column, active_column, Arg,
  text_arg, int_arg, bool_arg, UpdateProductParams, set_clauses, placeholder, assign, apply_clauses,
  is_nil, id_at, update_row, get_product, update_returning, update_product,
}
use micromart.Inventory.Placeholders.{
  resolve, resolve-append, placeholder_last, given, values, set_clauses-Builds,
}

-- What a partial update is to make of a row: a column that is given is replaced, any other kept.
abbrev or_else : {A : Type 0} → Option A → A → A
or_else none a = a
or_else (some b) a = b

abbrev price_or : Option ℤ → ℕ → Option ℕ
price_or none n = some n
price_or (some c) n = check_bigint c

abbrev pub overlay : UpdateProductParams → ℕ → Product → Option Product
overlay q now p = and_then (price_or q.price_cents p.price_cents) λ price. some (record p {
  name = or_else q.name p.name;
  description = or_else q.description p.description;
  category = or_else q.category p.category;
  price_cents = price;
  active = or_else q.active p.active;
  updated_at = now;
})

-- No pointer is given.
abbrev is_none : {A : Type 0} → Option A → Bool
is_none none = true
is_none (some a) = false

abbrev pub gives_nothing : UpdateProductParams → Bool
gives_nothing q =
    (((is_none q.name && is_none q.description) && is_none q.category) && is_none q.price_cents)
    && is_none q.active

-- What UpdateProduct is to do: read the product where no field is given, and else replace the row
-- that the id finds by its overlay, and return it.
abbrev pub partial_update :
    ⦃u : Uuids⦄ → String → UpdateProductParams → Exec (World Tables) Error Product
partial_update ⦃u⦄ id q =
    if gives_nothing q
    then get_product id
    else (statement other (λ w. and_then (u.parse id) λ k. update_row (overlay q) k w)
        >>= or_not_found)

-- The columns of a list, one after another.
unfoldable assign_all : List (Column × Arg) → Product → Option Product
assign_all [] p = some p
assign_all ((c, a) ∷ l) p = and_then (assign c a p) (assign_all l)

and_then_assoc :
    {A B C : Type 0} (o : Option A) (f : A → Option B) (g : B → Option C)
    → and_then (and_then o f) g ≡ and_then o (λ a. and_then (f a) g)
and_then_assoc none f g = refl
and_then_assoc (some a) f g = refl

assign_all-append :
    (l m : List (Column × Arg)) (p : Product)
    → assign_all (l ++ m) p ≡ and_then (assign_all l p) (assign_all m)
unfolding assign_all
assign_all-append [] m p = refl
assign_all-append ((c, a) ∷ l) m p =
    ap (and_then (assign c a p)) (fun_ext λ p'. assign_all-append l m p')
    ∙ sym (and_then_assoc (assign c a p) (assign_all l) (assign_all m))

abbrev touched : ℕ → Product → Option Product
touched now p = some (record p { updated_at = now })

apply_clauses-resolve :
    (args : List Arg) (cs : List (Column × ℕ)) (now : ℕ) (p : Product) {l : List (Column × Arg)}
    → resolve args cs ≡ some l
    → apply_clauses cs args now p ≡ and_then (assign_all l p) (touched now)
unfolding resolve apply_clauses assign_all
apply_clauses-resolve args [] now p h =
    ap
      (λ (o : Option (List (Column × Arg))).
        and_then o λ l. and_then (assign_all l p) (touched now))
      h
apply_clauses-resolve args ((c, i) ∷ cs) now p {l} h =
    let (a, found, h1) = and_then-eq-some (placeholder args i) _ h in
    let (rest, resolved, h2) = and_then-eq-some (resolve args cs) _ h1 in
    rw found (
      ap (and_then (assign c a p)) (fun_ext λ p'. apply_clauses-resolve args cs now p' resolved)
      ∙ sym (and_then_assoc (assign c a p) (assign_all rest) (touched now))
      ∙ ap
          (λ (o : Option (List (Column × Arg))).
            and_then o λ l. and_then (assign_all l p) (touched now))
          h2)

resolve-is_nil :
    (args : List Arg) (cs : List (Column × ℕ)) {l : List (Column × Arg)}
    → resolve args cs ≡ some l
    → is_nil cs ≡ is_nil l
unfolding resolve
resolve-is_nil args [] h =
    ap (λ (o : Option (List (Column × Arg))). elim o [ none ↦ true | some l ↦ is_nil l ]) h
resolve-is_nil args ((c, i) ∷ cs) {l} h =
    let (a, found, h1) = and_then-eq-some (placeholder args i) _ h in
    let (rest, resolved, h2) = and_then-eq-some (resolve args cs) _ h1 in
    ap (λ (o : Option (List (Column × Arg))). elim o [ none ↦ true | some l ↦ is_nil l ]) h2

is_nil-given :
    {A : Type 0} (l : List (Column × Arg)) (c : Column) (arg : A → Arg) (o : Option A)
    → is_nil (l ++ given c arg o) ≡ (is_nil l && is_none o)
is_nil-given [] c arg none = refl
is_nil-given [] c arg (some a) = refl
is_nil-given (x ∷ l) c arg none = refl
is_nil-given (x ∷ l) c arg (some a) = refl

module _ (p : Product) where
  assign-name :
      (o : Option String)
      → assign_all (given name_column text_arg o) p ≡ some (record p { name = or_else o p.name })
  unfolding assign_all
  assign-name none = refl
  assign-name (some s) = refl

  assign-description :
      (o : Option String)
      → assign_all (given description_column text_arg o) p
        ≡ some (record p { description = or_else o p.description })
  unfolding assign_all
  assign-description none = refl
  assign-description (some s) = refl

  assign-category :
      (o : Option String)
      → assign_all (given category_column text_arg o) p
        ≡ some (record p { category = or_else o p.category })
  unfolding assign_all
  assign-category none = refl
  assign-category (some s) = refl

  assign-price :
      (o : Option ℤ)
      → assign_all (given price_column int_arg o) p
        ≡ and_then (price_or o p.price_cents) (λ n. some (record p { price_cents = n }))
  unfolding assign_all
  assign-price none = refl
  assign-price (some c) = elim (Option-cases (check_bigint c)) [
    | inl negative ↦ rw negative refl
    | inr (n, whole) ↦ rw whole refl
  ]

  assign-active :
      (o : Option Bool)
      → assign_all (given active_column bool_arg o) p
        ≡ some (record p { active = or_else o p.active })
  unfolding assign_all
  assign-active none = refl
  assign-active (some b) = refl

module _ (q : UpdateProductParams) (now : ℕ) (p : Product) where
  -- The assignments up to the category cannot fail.
  abbrev texts : Product
  texts = record p {
    name = or_else q.name p.name;
    description = or_else q.description p.description;
    category = or_else q.category p.category;
  }

  values-overlay : and_then (assign_all (values q) p) (touched now) ≡ overlay q now p
  values-overlay =
      rw
        (
          assign_all-append
              (((given name_column text_arg q.name
                    ++ given description_column text_arg q.description)
                  ++ given category_column text_arg q.category)
                ++ given price_column int_arg q.price_cents)
              (given active_column bool_arg q.active) p,
          assign_all-append
              ((given name_column text_arg q.name
                  ++ given description_column text_arg q.description)
                ++ given category_column text_arg q.category)
              (given price_column int_arg q.price_cents) p,
          assign_all-append
              (given name_column text_arg q.name ++ given description_column text_arg q.description)
              (given category_column text_arg q.category) p,
          assign_all-append (given name_column text_arg q.name)
              (given description_column text_arg q.description) p,
          assign-name p q.name,
          assign-description (record p { name = or_else q.name p.name }) q.description,
          assign-category
              (record p {
                name = or_else q.name p.name;
                description = or_else q.description p.description;
              })
              q.category,
          assign-price texts q.price_cents,
        )
        priced
    where
      priced :
          and_then
            (and_then
              (and_then
                (price_or q.price_cents p.price_cents)
                (λ n. some (record texts { price_cents = n })))
              (assign_all (given active_column bool_arg q.active)))
            (touched now)
          ≡ overlay q now p
      priced = elim (Option-cases (price_or q.price_cents p.price_cents)) [
        | inl negative ↦ rw negative refl
        | inr (n, whole) ↦
            rw (whole, assign-active (record texts { price_cents = n }) q.active) refl
      ]

module _ ⦃u : Uuids⦄ (id : String) (q : UpdateProductParams) where
  is_nil_lem : is_nil (set_clauses q).set_clauses ≡ gives_nothing q
  is_nil_lem =
      let b = set_clauses q in
      resolve-is_nil b.args b.set_clauses (set_clauses-Builds q).resolved
      ∙ rw
          (
            is_nil-given
                (((given name_column text_arg q.name
                      ++ given description_column text_arg q.description)
                    ++ given category_column text_arg q.category)
                  ++ given price_column int_arg q.price_cents)
                active_column bool_arg q.active,
            is_nil-given
                ((given name_column text_arg q.name
                    ++ given description_column text_arg q.description)
                  ++ given category_column text_arg q.category)
                price_column int_arg q.price_cents,
            is_nil-given
                (given name_column text_arg q.name
                  ++ given description_column text_arg q.description)
                category_column text_arg q.category,
            is_nil-given (given name_column text_arg q.name) description_column text_arg
                q.description,
            is_nil-given [] name_column text_arg q.name,
          )
          refl

  update_returning_lem :
      let b = set_clauses q in
      update_returning b.set_clauses (b.args ++ text_arg id ∷ []) b.arg_idx
      ≡ statement other (λ w. and_then (u.parse id) λ k. update_row (overlay q) k w)
  unfolding update_returning
  update_returning_lem =
      let b = set_clauses q in
      let args = b.args ++ text_arg id ∷ [] in
      let built = set_clauses-Builds q in
      let found : id_at args b.arg_idx ≡ u.parse id =
        rw (built.next_number, placeholder_last b.args (text_arg id)) refl in
      let means : apply_clauses b.set_clauses args ≡ overlay q = fun_ext λ now. fun_ext λ p.
        apply_clauses-resolve args b.set_clauses now p
          (resolve-append b.args (text_arg id ∷ []) b.set_clauses built.resolved)
        ∙ values-overlay q now p in
      λ i. statement other (λ w. and_then (found i) λ k. update_row (means i) k w)

  -- UpdateProduct reads the product if no field is given. Else its UPDATE, with the clauses, their
  -- numbers and the arguments that it builds, finds the row by the id and replaces each column whose
  -- pointer is not nil by the value of that pointer, keeps the others, and is refused for a negative
  -- price.
  pub update_product-eq : update_product id q ≡ partial_update id q
  unfolding update_product
  update_product-eq = elim (Bool-cases (gives_nothing q)) [
    | inl nothing ↦ rw (is_nil_lem ∙ nothing, nothing) refl
    | inr something ↦
        rw (is_nil_lem ∙ something, something) (ap (λ m. m >>= or_not_found) update_returning_lem)
  ]
