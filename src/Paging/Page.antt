-- ===== src/Paging/Page.antt =====
-- One page of a keyset query, as ListProducts, SearchProducts and ListOrders read it.
use micromart.Prelude.{
  ℕ, suc, String, Bool, true, ◌&&◌, ◌||◌, Option, none, some, List, [], ◌∷◌, ltb, if◌then◌else◌,
  filter, take, get_last?, length,
}
use micromart.Prelude.Int.{ℤ, pos, pos_part, leb_ℤ, ltb_ℤ}
use micromart.Prelude.Exec.{Exec, pure, ◌>>=◌}
use micromart.Sql.{World, Uuids, statement}
use micromart.Sql.Tables.{and_then}
use micromart.Paging.Cursor.{encode_cursor, decode_cursor, parse_cursor}
use micromart.Paging.Ascending.{order_by}

-- `if pageSize <= 0 || pageSize > 100 { pageSize = 20 }`
unfoldable pub page_size_of : ℤ → ℕ
page_size_of n = if leb_ℤ n (pos 0) || ltb_ℤ (pos 100) n then 20 else pos_part n

-- `AND id > $n`, where there is a cursor.
abbrev pub is_after : Option ℕ → ℕ → Bool
is_after none k = true
is_after (some c) k = ltb c k

-- The cursor of the WHERE clause: none for the empty text, and a refused statement for a text that
-- is no UUID.
abbrev pub bound_by : Option ℕ → Option (Option ℕ)
bound_by none = none
bound_by (some c) = some (some c)

abbrev pub bound_of : ⦃u : Uuids⦄ → List ℕ → Option (Option ℕ)
bound_of [] = some none
bound_of (b ∷ bs) = bound_by (parse_cursor (b ∷ bs))

module _ {A : Type 0} (key : A → ℕ) where
  -- SELECT * FROM ... WHERE test AND id > c ORDER BY id LIMIT n
  abbrev pub select_rows : (A → Bool) → Option ℕ → ℕ → List A → List A
  select_rows test c n rows =
      take n (order_by key (filter (λ r. test r && is_after c (key r)) rows))

  abbrev pub last_cursor : ⦃u : Uuids⦄ → Option A → String
  last_cursor none = ""
  last_cursor ⦃u⦄ (some r) = encode_cursor (u.text (key r))

  -- `if int32(len(rows)) > pageSize { rows = rows[:pageSize]; nextToken = ... }`
  abbrev pub cut_page : ⦃u : Uuids⦄ → ℕ → List A → List A × String
  cut_page n rows =
      if ltb n (length rows)
      then (take n rows, last_cursor (get_last? (take n rows)))
      else (rows, "")

  -- A page of the rows that `rows_of` finds in the tables.
  abbrev pub page_query :
      ⦃u : Uuids⦄
      → {T : Type 0} → (T → List A)
      → (A → Bool)
      → ℕ
      → List ℕ
      → World T
      → Option (List A × World T)
  page_query rows_of test n cursor w =
      and_then (bound_of cursor) λ c. some (select_rows test c (suc n) (rows_of w.tables), w)

  unfoldable pub list_page :
      ⦃u : Uuids⦄
      → {T E : Type 0} → E
      → (T → List A)
      → (A → Bool)
      → ℤ
      → String
      → Exec (World T) E (List A × String)
  list_page e rows_of test page_size page_token =
      statement e (page_query rows_of test (page_size_of page_size) (decode_cursor page_token))
      >>= λ rows. pure (cut_page (page_size_of page_size) rows)
