-- ===== src/Inventory/Updates.antt =====
-- What the statements on the products do to the row that a lookup by id finds.
use mathlib.Core.Path.{subst}
use micromart.Prelude.{
  ℕ, ◌≡◌, refl, some-eq, refl, ◌≢◌, inl, inr, Option, none, some, List, arith, ℕ-cases,
  Option-cases,
}
use micromart.Prelude.Int.{ℤ}
use micromart.Sql.{World}
use micromart.Sql.Tables.{and_then-eq-some}
use micromart.Sql.Keys.{
  update_key, IsPrimary, find_key-update_ne, find_key-update_none, find_key-update_self,
  update_key-IsPrimary,
}
use micromart.Inventory.Entity.{Product, Tables, find_product}
use micromart.Inventory.Stock.{reserve_more, reserve_less, take_stock, update_product, set_products}

-- Two lookups, before and after: both find nothing, or what they find is related.
abbrev pub Both : (Product → Product → Type 0) → Option Product → Option Product → Type 0
Both R none none = Unit
Both R (some p) (some p') = R p p'
Both R _ _ = ⊥

-- What is found afterwards was there before.
pub Both-some :
    (R : Product → Product → Type 0) (o o' : Option Product) {p' : Product}
    → Both R o o'
    → o' ≡ some p'
    → (p : Product) × (o ≡ some p) × R p p'
Both-some R none none b e = cc
Both-some R none (some q) b e = absurd b
Both-some R (some p) none b e = absurd b
Both-some R (some p) (some q) {p'} b e = (p, refl, subst (R p) (some-eq refl e) b)

-- An UPDATE by id, seen through lookups.
abbrev pub Updated : (Product → Option Product) → ℕ → List Product → List Product → Type 0
Updated set k ps ps' =
    (IsPrimary (λ p. p.id) ps → IsPrimary (λ p. p.id) ps')
    × ((j : ℕ) → j ≢ k → find_product j ps' ≡ find_product j ps)
    × Both (λ p p'. set p ≡ some p') (find_product k ps) (find_product k ps')

module _ (set : Product → Option Product)
    (keeps : (a b : Product) → set a ≡ some b → b.id ≡ a.id) where
  update_key-Updated :
      (k : ℕ) (ps : List Product) {ps' : List Product}
      → update_key (λ p. p.id) k set ps ≡ some ps'
      → Updated set k ps ps'
  update_key-Updated k ps e = (
    (λ prim. update_key-IsPrimary (λ p. p.id) set keeps k ps prim e),
    (λ j n. find_key-update_ne (λ p. p.id) set keeps k j ps n e),
    elim (Option-cases (find_product k ps)) [
      | inl missing ↦ rw (missing, find_key-update_none (λ p. p.id) set keeps k ps missing e) tt
      | inr (p, found) ↦
          let (p', s, after) = find_key-update_self (λ p. p.id) set keeps k ps found e in
          rw (found, after) s
    ],
  )

set_products-eq-some :
    (w : World Tables) (ps : List Product) {x : Unit {0}} {w' : World Tables}
    → set_products w ps ≡ some (x, w')
    → (ps ≡ w'.tables.products) × (w'.tables.reservations ≡ w.tables.reservations)
set_products-eq-some w ps {x} {w'} h = ground arith

-- The same of the statement on the whole tables.
pub update_product-Updated :
    (f : ℕ → Product → Option Product)
    → ((now : ℕ) (a b : Product) → f now a ≡ some b → b.id ≡ a.id)
    → (k : ℕ) (w : World Tables) {x : Unit {0}} {w' : World Tables}
    → update_product k f w ≡ some (x, w')
    → Updated (f w.now) k w.tables.products w'.tables.products
      × (w'.tables.reservations ≡ w.tables.reservations)
unfolding update_product
update_product-Updated f keeps k w {x} {w'} h =
    let (ps, made, e) = and_then-eq-some _ _ h in
    let (same, rest) = set_products-eq-some w ps e in
    (
      subst (Updated (f w.now) k w.tables.products) same
          (update_key-Updated (f w.now) (keeps w.now) k w.tables.products made),
      rest,
    )

pub reserve_more_keeps :
    (q : ℤ) (now : ℕ) (a b : Product) → reserve_more q now a ≡ some b → b.id ≡ a.id
reserve_more_keeps q now a b h = ground arith

pub reserve_less_keeps : (q now : ℕ) (a b : Product) → reserve_less q now a ≡ some b → b.id ≡ a.id
reserve_less_keeps q now a b h = ground arith

pub take_stock_keeps : (q now : ℕ) (a b : Product) → take_stock q now a ≡ some b → b.id ≡ a.id
take_stock_keeps q now a b h = ground arith

pub Both-refl :
    (R : Product → Product → Type 0) → ((p : Product) → R p p) → (o : Option Product) → Both R o o
Both-refl R r none = tt
Both-refl R r (some p) = r p

pub Both-map :
    (R S : Product → Product → Type 0)
    → ((p p' : Product) → R p p' → S p p')
    → (o o' : Option Product) → Both R o o'
    → Both S o o'
Both-map R S f none none b = tt
Both-map R S f none (some q) b = b
Both-map R S f (some p) none b = b
Both-map R S f (some p) (some q) b = f p q b

pub Both-trans :
    (R S T : Product → Product → Type 0)
    → ((a b c : Product) → R a b → S b c → T a c)
    → (o o' o'' : Option Product) → Both R o o'
    → Both S o' o''
    → Both T o o''
Both-trans R S T f none none none r s = tt
Both-trans R S T f none none (some v) r s = s
Both-trans R S T f none (some q) o'' r s = absurd r
Both-trans R S T f (some p) none o'' r s = absurd r
Both-trans R S T f (some p) (some q) none r s = absurd s
Both-trans R S T f (some p) (some q) (some v) r s = f p q v r s

-- An UPDATE relates what each lookup finds to what it found before.
pub Updated-Both :
    (set : Product → Option Product) (k : ℕ) (ps ps' : List Product)
    (R : ℕ → Product → Product → Type 0)
    → Updated set k ps ps'
    → ((p p' : Product) → set p ≡ some p' → R k p p')
    → ((j : ℕ) → j ≢ k → (p : Product) → R j p p)
    → (j : ℕ) → Both (R j) (find_product j ps) (find_product j ps')
Updated-Both set k ps ps' R (_, others, one) at_k stay j = elim (ℕ-cases j k) [
  | inl same ↦ rw same (Both-map _ (R k) at_k _ _ one)
  | inr differs ↦ rw (others j differs) (Both-refl (R j) (stay j differs) _)
]

-- What holds of each row that is found, beside what relates the two.
pub Both-and :
    (R A : Product → Product → Type 0)
    → (o o' : Option Product) → ((p p' : Product) → o ≡ some p → o' ≡ some p' → R p p' → A p p')
    → Both R o o'
    → Both A o o'
Both-and R A none none f b = tt
Both-and R A none (some q) f b = b
Both-and R A (some p) none f b = b
Both-and R A (some p) (some q) f b = f p q refl refl b

-- What was there before is found afterwards.
pub Both-before :
    (R : Product → Product → Type 0) (o o' : Option Product) {p : Product}
    → Both R o o'
    → o ≡ some p
    → (p' : Product) × (o' ≡ some p') × R p p'
Both-before R none none b e = cc
Both-before R none (some q) b e = absurd b
Both-before R (some p) none b e = absurd b
Both-before R (some a) (some q) b e = (q, refl, subst (λ (x : Product). R x q) (some-eq refl e) b)
