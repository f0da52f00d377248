-- ===== src/Inventory/Placeholders.antt =====
-- The UPDATE that UpdateProduct of services/inventory/product_repository.go builds.
use micromart.Prelude.{
  ℕ, zero, suc, ◌≡◌, refl, ap, sym, Option, none, some, List, [], ◌∷◌, ◌++◌, append-nil, length,
  length-append, arith,
}
use mathlib.Core.Path.{subst}
use micromart.Sql.Tables.{and_then, and_then-eq-some}
use micromart.Inventory.Products.{
  Column, name_column, description_column, category_column, price_column, active_column, Arg,
  text_arg, int_arg, bool_arg, Builder, empty_builder, add_clause, UpdateProductParams, set_clauses,
  placeholder,
}

-- The clauses of a list with the arguments that their numbers stand for.
unfoldable pub resolve : List Arg → List (Column × ℕ) → Option (List (Column × Arg))
resolve args [] = some []
resolve args ((c, i) ∷ cs) =
    and_then (placeholder args i) λ a. and_then (resolve args cs) λ l. some ((c, a) ∷ l)

placeholder-append :
    (args more : List Arg) (i : ℕ) {a : Arg}
    → placeholder args i ≡ some a
    → placeholder (args ++ more) i ≡ some a
unfolding placeholder
placeholder-append [] more i h = cc
placeholder-append (b ∷ args) more zero h = cc
placeholder-append (b ∷ args) more (suc zero) h = h
placeholder-append (b ∷ args) more (suc (suc i)) h = placeholder-append args more (suc i) h

pub placeholder_last :
    (args : List Arg) (a : Arg) → placeholder (args ++ a ∷ []) (suc (length args)) ≡ some a
unfolding placeholder
placeholder_last [] a = refl
placeholder_last (b ∷ args) a = placeholder_last args a

pub resolve-append :
    (args more : List Arg) (cs : List (Column × ℕ)) {l : List (Column × Arg)}
    → resolve args cs ≡ some l
    → resolve (args ++ more) cs ≡ some l
unfolding resolve
resolve-append args more [] h = h
resolve-append args more ((c, i) ∷ cs) {l} h =
    let (a, found, h1) = and_then-eq-some (placeholder args i) _ h in
    let (rest, resolved, h2) = and_then-eq-some (resolve args cs) _ h1 in
    rw (placeholder-append args more i found, resolve-append args more cs resolved) h2

resolve_last :
    (args : List Arg) (cs : List (Column × ℕ)) (c : Column) (i : ℕ) {l : List (Column × Arg)}
    {a : Arg}
    → resolve args cs ≡ some l
    → placeholder args i ≡ some a
    → resolve args (cs ++ (c, i) ∷ []) ≡ some (l ++ (c, a) ∷ [])
unfolding resolve
resolve_last args [] c i {l} {a} h found =
    rw found
      (ap (λ (o : Option (List (Column × Arg))). and_then o (λ l. some (l ++ (c, a) ∷ []))) h)
resolve_last args ((d, k) ∷ cs) c i {l} {a} h found =
    let (b, there, h1) = and_then-eq-some (placeholder args k) _ h in
    let (rest, resolved, h2) = and_then-eq-some (resolve args cs) _ h1 in
    rw (there, resolve_last args cs c i resolved found)
      (ap (λ (o : Option (List (Column × Arg))). and_then o (λ l. some (l ++ (c, a) ∷ []))) h2)

-- A builder whose clauses stand for these columns with these values, and whose next number is that of
-- the next argument.
pub record Builds (l : List (Column × Arg)) (b : Builder) : Type 0 where
  pub resolved : resolve b.args b.set_clauses ≡ some l
  pub next_number : b.arg_idx ≡ suc (length b.args)

abbrev pub given : {A : Type 0} → Column → (A → Arg) → Option A → List (Column × Arg)
given c arg none = []
given c arg (some a) = (c, arg a) ∷ []

add_clause-Builds :
    {A : Type 0} (c : Column) (arg : A → Arg) (o : Option A) (l : List (Column × Arg)) (b : Builder)
    → Builds l b
    → Builds (l ++ given c arg o) (add_clause c arg o b)
add_clause-Builds c arg none l b h =
    subst (λ (k : List (Column × Arg)). Builds k b) (sym (append-nil l)) h
add_clause-Builds c arg (some a) l b h = record {
  resolved =
      resolve_last (b.args ++ arg a ∷ []) b.set_clauses c b.arg_idx
        (resolve-append b.args (arg a ∷ []) b.set_clauses h.resolved)
        (rw h.next_number (placeholder_last b.args (arg a)));
  next_number = omega (arith, h.next_number, length-append b.args (arg a ∷ []));
}

-- What a partial update sets: each column whose pointer is not nil.
abbrev pub values : UpdateProductParams → List (Column × Arg)
values q =
    ((((given name_column text_arg q.name) ++ given description_column text_arg q.description)
        ++ given category_column text_arg q.category)
      ++ given price_column int_arg q.price_cents)
    ++ given active_column bool_arg q.active

pub set_clauses-Builds : (q : UpdateProductParams) → Builds (values q) (set_clauses q)
unfolding set_clauses resolve
set_clauses-Builds q = add_clause-Builds active_column bool_arg q.active _ _ (
    add_clause-Builds price_column int_arg q.price_cents _ _ (
      add_clause-Builds category_column text_arg q.category _ _ (
        add_clause-Builds description_column text_arg q.description _ _ (
          add_clause-Builds name_column text_arg q.name [] empty_builder
            (record { resolved = refl; next_number = refl })))))
