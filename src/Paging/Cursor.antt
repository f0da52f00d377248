-- ===== src/Paging/Cursor.antt =====
-- encodeCursor and decodeCursor of services/inventory/helper.go and services/order/helper.go, which
-- are alike.
use micromart.Prelude.{
  ℕ, ◌+◌, ◌*◌, ◌/◌, ◌%◌, String, ◌≡◌, refl, ◌<◌, Option, none, some, List, [], ◌∷◌, All, arith,
  if◌then◌else◌, false,
}
use micromart.Prelude.Text.{is_empty}
use micromart.Prelude.Ascii.{codes, text_of, of_codes, IsAscii, of_codes-codes, codes-text_of}
use micromart.Prelude.Base64
use micromart.Prelude.Base64.{symbol}
use micromart.Prelude.Base64Laws.{decode-encode}
use micromart.Sql.{Uuids}

unfoldable pub encode_cursor : String → String
encode_cursor id = text_of (Base64.encode (codes id))

-- A cursor as the bytes that it decodes to; an error leaves the empty text, `cursor, _ := ...`.
abbrev pub or_empty : Option (List ℕ) → List ℕ
or_empty none = []
or_empty (some bs) = bs

unfoldable pub decode_cursor : String → List ℕ
decode_cursor token = if is_empty token then [] else or_empty (Base64.decode (codes token))

-- The bytes as the UUID that PostgreSQL reads them as. A text that is not ASCII is no UUID.
abbrev pub parse_text : ⦃u : Uuids⦄ → Option String → Option ℕ
parse_text none = none
parse_text ⦃u⦄ (some s) = u.parse s

abbrev pub parse_cursor : ⦃u : Uuids⦄ → List ℕ → Option ℕ
parse_cursor bs = parse_text (of_codes bs)

symbol_ascii : (n : ℕ) → n < 64 → symbol n < 128
unfolding symbol
symbol_ascii n h = ground arith

-- What base64 writes is ASCII.
encode_ascii : (bs : List ℕ) → All (λ n. n < 256) bs → All (λ n. n < 128) (Base64.encode bs)
unfolding Base64.encode
encode_ascii [] h = tt
encode_ascii (a ∷ []) (ha, _) = (
  symbol_ascii (a / 4) (omega arith),
  (symbol_ascii (a % 4 * 16) (omega arith), (omega arith, (omega arith, tt))),
)
encode_ascii (a ∷ b ∷ []) (ha, (hb, _)) = (
  symbol_ascii (a / 4) (omega arith),
  (
    symbol_ascii (a % 4 * 16 + b / 16) (omega arith),
    (symbol_ascii (b % 16 * 4) (omega arith), (omega arith, tt)),
  ),
)
encode_ascii (a ∷ b ∷ c ∷ rest) (ha, (hb, (hc, hs))) = (
  symbol_ascii (a / 4) (omega arith),
  (
    symbol_ascii (a % 4 * 16 + b / 16) (omega arith),
    (
      symbol_ascii (b % 16 * 4 + c / 64) (omega arith),
      (symbol_ascii (c % 64) (omega arith), encode_ascii rest hs),
    ),
  ),
)

bytes_of_ascii : (bs : List ℕ) → All (λ n. n < 128) bs → All (λ n. n < 256) bs
bytes_of_ascii [] h = tt
bytes_of_ascii (b ∷ bs) (small, rest) = (omega arith, bytes_of_ascii bs rest)

-- An ASCII id that is not empty comes back from its cursor, and the cursor is not empty.
pub encoded_not_empty : (id : String) → is_empty id ≡ false → is_empty (encode_cursor id) ≡ false
unfolding encode_cursor Base64.encode text_of
encoded_not_empty String.[] h = cc
encoded_not_empty (String.◌∷◌ a String.[]) h = refl
encoded_not_empty (String.◌∷◌ a (String.◌∷◌ b String.[])) h = refl
encoded_not_empty (String.◌∷◌ a (String.◌∷◌ b (String.◌∷◌ c s))) h = refl

codes-encode_cursor :
    (id : String) → IsAscii id → codes (encode_cursor id) ≡ Base64.encode (codes id)
unfolding encode_cursor
codes-encode_cursor id h =
    codes-text_of (Base64.encode (codes id)) (encode_ascii (codes id) (bytes_of_ascii (codes id) h))

-- A cursor made from an ASCII id decodes to the bytes of that id.
pub decode_cursor-encode_cursor :
    (id : String) → IsAscii id → decode_cursor (encode_cursor id) ≡ codes id
unfolding decode_cursor
decode_cursor-encode_cursor String.[] h = unfold encode_cursor Base64.encode text_of in refl
decode_cursor-encode_cursor (String.◌∷◌ c s) h =
    rw (encoded_not_empty (String.◌∷◌ c s) refl, codes-encode_cursor (String.◌∷◌ c s) h)
      (rw (decode-encode (codes (String.◌∷◌ c s)) (bytes_of_ascii (codes (String.◌∷◌ c s)) h)) refl)

-- The cursor of an id is read as that id's number.
pub parse_cursor-encode_cursor :
    ⦃u : Uuids⦄ (n : ℕ)
    → IsAscii (u.text n)
    → (parse_cursor (decode_cursor (encode_cursor (u.text n))) ≡ some n)
parse_cursor-encode_cursor ⦃u⦄ n h =
    rw (decode_cursor-encode_cursor (u.text n) h, of_codes-codes (u.text n) h) (u.parse-text n)
