-- ===== src/Paging/Bounds.antt =====
-- How many rows a page has, and when it has a next token.
use mathlib.Core.Path.{subst}
use micromart.Prelude.{
  ℕ, suc, String, ◌≡◌, refl, ◌∙◌, ap, ◌≤◌, ◌<◌, ◌⊎◌, Bool, ◌&&◌, Option, some, List, [], ◌∷◌,
  length, take, filter, get_last?-take, take_all, length-take, leb, Bool-cases, inl, inr, arith,
  if◌then◌else◌,
}
use micromart.Prelude.Int.{ℤ, pos, ◌≤ℤ◌}
use micromart.Prelude.Text.{is_empty}
use micromart.Prelude.Exec.{ok, pure, >>=-eq-ok, pure-eq}
use micromart.Sql.{World, Uuids, statement}
use micromart.Sql.Laws.{statement-eq-ok}
use micromart.Sql.Tables.{and_then-eq-some}
use micromart.Paging.Ascending.{order_by, insert_by}
use micromart.Paging.Cursor.{decode_cursor, encoded_not_empty}
use micromart.Paging.Walk.{cut_last, cut_first}
use micromart.Paging.Page.{page_size_of, is_after, bound_of, cut_page, page_query, list_page}

-- A request with this page size is to get up to `n` rows: as many as it says, from 1 to 100, and 20
-- where it says anything else.
abbrev pub AsksFor : ℤ → ℕ → Type 0
AsksFor page_size n =
    ((0 < n) × (n ≤ 100) × (page_size ≡ pos n))
    ⊎ ((n ≡ 20) × (page_size ≤ℤ pos 0 ⊎ pos 101 ≤ℤ page_size))

page_size_of-AsksFor : (page_size : ℤ) (n : ℕ) → AsksFor page_size n → page_size_of page_size ≡ n
unfolding page_size_of
page_size_of-AsksFor page_size n (inl (some_rows, not_many, e)) = rw e (ground arith)
page_size_of-AsksFor page_size n (inr (e, inl small)) = ground arith
page_size_of-AsksFor page_size n (inr (e, inr large)) = ground arith

AsksFor-pos : (page_size : ℤ) (n : ℕ) → AsksFor page_size n → 0 < n
AsksFor-pos page_size n (inl (some_rows, not_many, e)) = some_rows
AsksFor-pos page_size n (inr (e, _)) = omega (arith, e)

length-insert :
    {A : Type 0} (key : A → ℕ) (x : A) (ys : List A) → length (insert_by key x ys) ≡ suc (length ys)
unfolding insert_by
length-insert key x [] = refl
length-insert key x (y ∷ ys) = elim (Bool-cases (leb (key x) (key y))) [
  | inl le ↦ rw le refl
  | inr gt ↦ rw gt (ap (λ n. suc n) (length-insert key x ys))
]

length-order_by : {A : Type 0} (key : A → ℕ) (xs : List A) → length (order_by key xs) ≡ length xs
unfolding order_by
length-order_by key [] = refl
length-order_by key (x ∷ xs) =
    length-insert key x (order_by key xs) ∙ ap (λ n. suc n) (length-order_by key xs)

-- A page of `n` rows at most, where `left` are left to list: it is full or holds all of them, and it
-- has a next token where some do not fit.
abbrev pub IsPageOf : {A : Type 0} → ℕ → ℕ → List A → String → Type 0
IsPageOf n left rows next_token =
    (length rows ≡ (if leb left n then left else n)) × (is_empty next_token ≡ leb left n)

module _ ⦃u : Uuids⦄ {A T E : Type 0} (key : A → ℕ) (e : E) (rows_of : T → List A) (test : A → Bool)
    (token : String) where
  cut_page-IsPageOf :
      (n : ℕ) (d : List A)
      → 0 < n
      → let (rows, next_token) = cut_page key n (take (suc n) d) in
        IsPageOf n (length d) rows next_token
  cut_page-IsPageOf n d some_rows = elim (Bool-cases (leb (length d) n)) [
    | inl fits ↦
        let short : length d ≤ n = ground (arith, fits) in
        let all : length (take (suc n) d) ≡ length d =
          ap length (take_all (suc n) d (omega (arith, short))) in
        rw (cut_last key n d (omega (arith, all, short)), fits) (refl, refl)
    | inr more ↦
        let long : n < length d = ground (arith, more) in
        let (x, last) = get_last?-take n d some_rows (omega (arith, long)) in
        rw
          (
            cut_first key n d (omega (arith, length-take (suc n) d (omega (arith, long)))) last,
            more,
          )
          (
            length-take n d (omega (arith, long)),
            encoded_not_empty (u.text (key x)) (u.is_empty-text (key x)),
          )
  ]

  -- A page that a list answers with has as many rows as the request asks for, from 1 to 100 by its
  -- page size and 20 for any other page size, or all that are left behind the cursor where these are
  -- fewer; and it comes with a next token exactly if rows are left behind it.
  pub list_page-fits :
      (page_size : ℤ) (n : ℕ)
      → AsksFor page_size n
      → (w : World T) {rows : List A} {next_token : String} {w' : World T}
      → list_page key e rows_of test page_size token w ≡ (ok (rows, next_token), w')
      → (c : Option ℕ) × (bound_of (decode_cursor token) ≡ some c)
        × IsPageOf n
            (length (filter (λ r. test r && is_after c (key r)) (rows_of w.tables)))
            rows
            next_token
  unfolding list_page
  list_page-fits page_size n asks w {rows} {next_token} {w'} h =
      let size = page_size_of page_size in
      let (found, w1, e1, h1) =
        >>=-eq-ok (statement e (page_query key rows_of test size (decode_cursor token)))
          (λ rows. pure (cut_page key size rows)) w h in
      let (page, left) = pure-eq h1 in
      let size_is : size ≡ n = page_size_of-AsksFor page_size n asks in
      let (c, bound, h2) =
        and_then-eq-some (bound_of (decode_cursor token)) _
          (statement-eq-ok e (page_query key rows_of test size (decode_cursor token)) w e1) in
      let d = order_by key (filter (λ r. test r && is_after c (key r)) (rows_of w.tables)) in
      let same : take (suc size) d ≡ found = ground arith in
      let cut : cut_page key n (take (suc n) d) ≡ (rows, next_token) = rw (← size_is, same) page in
      (
        c,
        bound,
        rw (← (length-order_by key (filter (λ r. test r && is_after c (key r)) (rows_of w.tables))))
            (subst (λ (p : List A × String). IsPageOf n (length d) p.0 p.1) cut
              (cut_page-IsPageOf n d (AsksFor-pos page_size n asks))),
      )
