-- ===== src/Paging/Walk.antt =====
-- Reading all pages, one after another.
use mathlib.Core.Path.{subst}
use micromart.Prelude.{
  ℕ, zero, suc, ◌≤◌, ◌<◌, String, ◌≡◌, refl, sym, ap, ◌∙◌, inl, inr, ◌⊎◌, Bool, true, false, Option,
  none, some, List, [], ◌∷◌, ◌++◌, arith, ltb, if◌then◌else◌, filter, take, drop, get_last?, length,
  Bool-cases, take-append-drop, take_all, take-take-suc, length-drop, length-take-suc_le,
  length-take-suc_gt, get_last?-take,
}
use micromart.Prelude.Int.{ℤ}
use micromart.Prelude.Text.{is_empty}
use micromart.Prelude.Ascii.{codes}
use micromart.Prelude.Exec.{Result, ok, err, pure, >>=-ok}
use micromart.Sql.{World, Uuids, calm, statement}
use micromart.Sql.Laws.{statement-calm}
use micromart.Sql.Keys.{IsPrimary}
use micromart.Paging.Cursor.{
  encode_cursor, decode_cursor, parse_cursor, decode_cursor-encode_cursor,
  parse_cursor-encode_cursor, encoded_not_empty,
}
use micromart.Paging.Ascending.{
  IsAbove, IsAscending, order_by, order_by-filter, order_by-IsAscending, filter_after_take,
  last-above,
}
use micromart.Paging.Page.{
  page_size_of, is_after, bound_of, select_rows, cut_page, page_query, list_page,
}

page_size_pos : (n : ℤ) → 0 < page_size_of n
unfolding page_size_of
page_size_pos n = ground arith

-- A client that asks for one page after another until there is no next token.
abbrev pub put_rows : {A : Type 0} → List A → Option (List A) → Option (List A)
put_rows rows none = none
put_rows rows (some more) = some (rows ++ more)

module _ {A E : Type 0} (page : String → Result E (List A × String)) where
  -- `rest` is what the later pages come to.
  abbrev pub and_later : Result E (List A × String) → (String → Option (List A)) → Option (List A)
  and_later (err e) rest = none
  and_later (ok (rows, token)) rest =
      if is_empty token then some rows else put_rows rows (rest token)

  unfoldable pub all_pages : ℕ → String → Option (List A)
  all_pages zero token = none
  all_pages (suc fuel) token = and_later (page token) (all_pages fuel)

le_or_gt : (a b : ℕ) → (a ≤ b) ⊎ (b < a)
le_or_gt a b = ground arith

module _ {A : Type 0} (key : A → ℕ) where
  drop-IsAbove : (k n : ℕ) (xs : List A) → IsAbove key k xs → IsAbove key k (drop n xs)
  drop-IsAbove k zero xs h = h
  drop-IsAbove k (suc n) [] h = tt
  drop-IsAbove k (suc n) (x ∷ xs) (_, h) = drop-IsAbove k n xs h

  drop-IsAscending : (n : ℕ) (xs : List A) → IsAscending key xs → IsAscending key (drop n xs)
  drop-IsAscending zero xs h = h
  drop-IsAscending (suc n) [] h = tt
  drop-IsAscending (suc n) (x ∷ xs) (_, h) = drop-IsAscending n xs h

  absorb :
      (c k : ℕ) (xs : List A)
      → c ≤ k
      → filter (λ x. ltb k (key x)) (filter (λ x. ltb c (key x)) xs)
        ≡ filter (λ x. ltb k (key x)) xs
  absorb c k [] le = refl
  absorb c k (x ∷ xs) le = elim (Bool-cases (ltb c (key x))) [
    | inl above ↦ elim (Bool-cases (ltb k (key x))) [
      | inl in_both ↦ rw (above, in_both, absorb c k xs le) refl
      | inr out ↦ rw (above, out, absorb c k xs le) refl
    ]
    | inr below ↦
        let out : ltb k (key x) ≡ false = ground arith in rw (below, out, absorb c k xs le) refl
  ]

  IsAbove-cursor : (c : ℕ) (xs : List A) → IsAbove key c (filter (λ x. ltb c (key x)) xs)
  IsAbove-cursor c [] = tt
  IsAbove-cursor c (x ∷ xs) = elim (Bool-cases (ltb c (key x))) [
    | inl above ↦ rw above (ground arith, IsAbove-cursor c xs)
    | inr below ↦ rw below (IsAbove-cursor c xs)
  ]

  filter-true : (xs : List A) → filter (λ _. true) xs ≡ xs
  filter-true [] = refl
  filter-true (x ∷ xs) = ap (λ ys. x ∷ ys) (filter-true xs)

  -- The rows behind a page are those behind its last row.
  behind_page :
      (c : Option ℕ) (n : ℕ) (all d : List A) {x : A}
      → filter (λ r. is_after c (key r)) all ≡ d
      → IsAscending key d
      → get_last? (take n d) ≡ some x
      → filter (λ r. is_after (some (key x)) (key r)) all ≡ drop n d
  behind_page none n all d {x} same asc last =
      ap (filter (λ r. ltb (key x) (key r))) (sym (filter-true all) ∙ same)
      ∙ filter_after_take key n d asc last
  behind_page (some c) n all d {x} same asc last =
      sym (
        absorb c (key x) all (
          omega
            (arith, last-above key c n d (subst (IsAbove key c) same (IsAbove-cursor c all)) last)))
      ∙ ap (filter (λ r. ltb (key x) (key r))) same
      ∙ filter_after_take key n d asc last

  -- A page that holds all that is left has no next token.
  pub cut_last :
      ⦃u : Uuids⦄ (n : ℕ) (d : List A)
      → length (take (suc n) d) ≤ n
      → cut_page key n (take (suc n) d) ≡ (d, "")
  cut_last n d h =
      let short : length d ≤ n = length-take-suc_le n d h in
      let no_more : ltb n (length (take (suc n) d)) ≡ false = ground arith in
      rw no_more (ap (λ xs. (xs, "")) (take_all (suc n) d (omega (arith, short))))

  pub cut_first :
      ⦃u : Uuids⦄ (n : ℕ) (d : List A) {x : A}
      → n < length (take (suc n) d)
      → get_last? (take n d) ≡ some x
      → cut_page key n (take (suc n) d) ≡ (take n d, encode_cursor (u.text (key x)))
  cut_first ⦃u⦄ n d {x} h last =
      let more : ltb n (length (take (suc n) d)) ≡ true = ground arith in
      rw (more, take-take-suc n d, last) refl

bound_of-codes :
    ⦃u : Uuids⦄ (s : String) (n : ℕ)
    → is_empty s ≡ false
    → parse_cursor (codes s) ≡ some n
    → bound_of (codes s) ≡ some (some n)
bound_of-codes String.[] n h e = cc
bound_of-codes (String.◌∷◌ c s) n h e = rw e refl

module _ ⦃u : Uuids⦄ {A T E : Type 0} (key : A → ℕ) (e : E) (rows_of : T → List A) (test : A → Bool)
    (page_size : ℤ) (t : T) (us : ℕ → ℕ) (now : ℕ) (prim : IsPrimary key (rows_of t)) where
  -- What a client is answered that asks for the page of a token.
  abbrev pub page_of : String → Result E (List A × String)
  page_of token = (list_page key e rows_of test page_size token (calm t us now)).0

  -- The rows that pass the test, in the order of their ids.
  abbrev pub listed : List A
  listed = order_by key (filter test (rows_of t))

  next_bound : (k : ℕ) → bound_of (decode_cursor (encode_cursor (u.text k))) ≡ some (some k)
  next_bound k = rw (decode_cursor-encode_cursor (u.text k) (u.IsAscii-text k)) (
      bound_of-codes (u.text k) k (u.is_empty-text k) (
        rw (← (decode_cursor-encode_cursor (u.text k) (u.IsAscii-text k)))
          (parse_cursor-encode_cursor k (u.IsAscii-text k))))

  page_of-eq :
      (token : String) {c : Option ℕ} (d : List A)
      → bound_of (decode_cursor token) ≡ some c
      → filter (λ r. is_after c (key r)) listed ≡ d
      → page_of token
        ≡ ok (cut_page key (page_size_of page_size) (take (suc (page_size_of page_size)) d))
  unfolding list_page
  page_of-eq token {c} d bound behind =
      let n = page_size_of page_size in
      let found : select_rows key test c (suc n) (rows_of t) ≡ take (suc n) d =
        ap (take (suc n))
          (order_by-filter key test (λ r. is_after c (key r)) (rows_of t) prim ∙ behind) in
      ap (λ (r : Result E (List A × String) × World T). r.0)
        (>>=-ok (statement e (page_query key rows_of test n (decode_cursor token)))
          (λ rows. pure (cut_page key n rows)) (calm t us now) {a = take (suc n) d}
          {t = calm t us now}
          (statement-calm e (page_query key rows_of test n (decode_cursor token)) t us now
            (rw (bound, found) refl)))

  later_pages :
      (fuel : ℕ) (token : String) {c : Option ℕ} (d : List A)
      → bound_of (decode_cursor token) ≡ some c
      → filter (λ r. is_after c (key r)) listed ≡ d
      → IsAscending key d
      → length d < fuel
      → all_pages page_of fuel token ≡ some d
  unfolding all_pages
  later_pages zero token d bound behind asc h = absurd (omega (arith, h))
  later_pages (suc fuel) token {c} d bound behind asc h =
      let n = page_size_of page_size in
      elim (le_or_gt (length (take (suc n) d)) n) [
        | inl all_left ↦ rw (page_of-eq token d bound behind, cut_last key n d all_left) refl
        | inr more ↦
            let long : n < length d = length-take-suc_gt n d more in
            let (x, last) = get_last?-take n d (page_size_pos page_size) (omega (arith, long)) in
            rw
              (
                page_of-eq token d bound behind,
                cut_first key n d more last,
                encoded_not_empty (u.text (key x)) (u.is_empty-text (key x)),
                later_pages fuel (encode_cursor (u.text (key x))) (drop n d) (next_bound (key x))
                    (behind_page key c n listed d behind asc last) (drop-IsAscending key n d asc)
                    (omega (arith, length-drop n d, h, page_size_pos page_size, long)),
              )
              (ap some (take-append-drop n d))
      ]

  -- Whatever page size a client asks for: reading one page after another, from the empty token until
  -- there is no next one, gives every row that passes the test exactly once, in the order of their
  -- ids, in at most as many pages as there are rows, and one. The table has a primary key, and does
  -- not change meanwhile; calls are carried out and answered.
  pub all_pages-listed : all_pages page_of (suc (length listed)) "" ≡ some listed
  all_pages-listed =
      later_pages (suc (length listed)) "" {c = none} listed (unfold decode_cursor in refl)
        (filter-true key listed) (order_by-IsAscending key test (rows_of t) prim) (omega arith)
