-- ===== src/Prelude/Base64Laws.antt =====
-- What base64 encodes is decoded again.
use Prim.Native.Nat.{ℕ, ◌+◌, ◌*◌, ◌/◌, ◌%◌, ◌<◌}
use mathlib.Core.Path.{◌≡◌, refl, ap, ap₂, ◌∙◌}
use mathlib.Core.Option.{some}
use mathlib.Core.List.{List, [], ◌∷◌}
use native.Mathlib.Omega.{arith}
use micromart.Prelude.Lists.{All}
use micromart.Prelude.Base64.{
  symbol, encode, skip_breaks, decode_groups, decode, symbol_lem, three_bytes,
}

-- A byte's or two bytes' sextets are sextets, and give the bytes back.
high : (a : ℕ) → a < 256 → a / 4 < 64
high a h = omega arith

middle : (a b : ℕ) → a < 256 → b < 256 → a % 4 * 16 + b / 16 < 64
middle a b h k = omega arith

joined : (a b : ℕ) → a < 256 → b < 256 → a / 4 * 4 + (a % 4 * 16 + b / 16) / 16 ≡ a
joined a b h k = omega arith

joined₂ :
    (a b c : ℕ)
    → b < 256
    → c < 256
    → (a % 4 * 16 + b / 16) % 16 * 16 + (b % 16 * 4 + c / 64) / 4 ≡ b
joined₂ a b c k l = omega arith

joined₃ : (b c : ℕ) → c < 256 → (b % 16 * 4 + c / 64) % 4 * 64 + c % 64 ≡ c
joined₃ b c l = omega arith

-- A group of four symbols in front of the rest.
group_lem :
    (p q r s : ℕ) (cs : List ℕ)
    → p < 64
    → q < 64
    → r < 64
    → s < 64
    → decode_groups (symbol p ∷ symbol q ∷ symbol r ∷ symbol s ∷ cs)
      ≡ three_bytes (some p) (some q) (some r) (some s) (decode_groups cs)
unfolding decode_groups
group_lem p q r s [] hp hq hr hs =
    let ep = (symbol_lem p hp).0 in
    let eq = (symbol_lem q hq).0 in
    let er = (symbol_lem r hr).0 in
    let es = (symbol_lem s hs).0 in
    let no_pad = (symbol_lem s hs).1 in rw (no_pad, ep, eq, er, es) refl
group_lem p q r s (c ∷ cs) hp hq hr hs =
    let ep = (symbol_lem p hp).0 in
    let eq = (symbol_lem q hq).0 in
    let er = (symbol_lem r hr).0 in let es = (symbol_lem s hs).0 in rw (ep, eq, er, es) refl

skip_symbol :
    (n : ℕ) (cs : List ℕ) → n < 64 → skip_breaks (symbol n ∷ cs) ≡ symbol n ∷ skip_breaks cs
unfolding skip_breaks
skip_symbol n cs h = let (_, _, no_nl, no_cr) = symbol_lem n h in rw (no_nl, no_cr) refl

-- No line breaks are written.
skip_breaks-encode : (bs : List ℕ) → All (λ b. b < 256) bs → skip_breaks (encode bs) ≡ encode bs
unfolding encode
skip_breaks-encode [] h = unfold skip_breaks in refl
skip_breaks-encode (a ∷ []) (ha, _) =
    skip_symbol _ _ (high a ha)
    ∙ ap (λ x. symbol (a / 4) ∷ x)
        (skip_symbol (a % 4 * 16) _ (omega arith) ∙ unfold skip_breaks in refl)
skip_breaks-encode (a ∷ b ∷ []) (ha, (hb, _)) =
    skip_symbol _ _ (high a ha)
    ∙ ap (λ x. symbol (a / 4) ∷ x)
        (skip_symbol _ _ (middle a b ha hb)
          ∙ ap (λ x. symbol (a % 4 * 16 + b / 16) ∷ x)
              (skip_symbol (b % 16 * 4) _ (omega arith) ∙ unfold skip_breaks in refl))
skip_breaks-encode (a ∷ b ∷ c ∷ rest) (ha, (hb, (hc, hs))) =
    skip_symbol _ _ (high a ha)
    ∙ ap (λ x. symbol (a / 4) ∷ x)
        (skip_symbol _ _ (middle a b ha hb)
          ∙ ap (λ x. symbol (a % 4 * 16 + b / 16) ∷ x)
              (skip_symbol (b % 16 * 4 + c / 64) _ (omega arith)
                ∙ ap (λ x. symbol (b % 16 * 4 + c / 64) ∷ x)
                    (skip_symbol (c % 64) _ (omega arith)
                      ∙ ap (λ x. symbol (c % 64) ∷ x) (skip_breaks-encode rest hs))))

decode_groups-encode : (bs : List ℕ) → All (λ b. b < 256) bs → decode_groups (encode bs) ≡ some bs
unfolding encode
decode_groups-encode [] h = unfold decode_groups in refl
decode_groups-encode (a ∷ []) (ha, _) =
    let e0 = (symbol_lem (a / 4) (high a ha)).0 in
    let e1 = (symbol_lem (a % 4 * 16) (omega arith)).0 in
    unfold decode_groups in rw (e0, e1) (ap (λ x. some (x ∷ [])) (omega arith))
decode_groups-encode (a ∷ b ∷ []) (ha, (hb, _)) =
    let e0 = (symbol_lem (a / 4) (high a ha)).0 in
    let e1 = (symbol_lem (a % 4 * 16 + b / 16) (middle a b ha hb)).0 in
    let e2 = (symbol_lem (b % 16 * 4) (omega arith)).0 in
    let no_pad = (symbol_lem (b % 16 * 4) (omega arith)).1 in
    unfold decode_groups in
    rw (no_pad, e0, e1, e2) (ap₂ (λ x y. some (x ∷ y ∷ [])) (joined a b ha hb) (omega arith))
decode_groups-encode (a ∷ b ∷ c ∷ rest) (ha, (hb, (hc, hs))) =
    group_lem (a / 4) (a % 4 * 16 + b / 16) (b % 16 * 4 + c / 64) (c % 64) (encode rest) (high a ha)
      (middle a b ha hb) (omega arith) (omega arith)
    ∙ rw (decode_groups-encode rest hs, joined a b ha hb, joined₂ a b c hb hc, joined₃ b c hc) refl

-- Decoding reads back what encoding wrote, for every list of bytes.
pub decode-encode : (bs : List ℕ) → All (λ b. b < 256) bs → decode (encode bs) ≡ some bs
unfolding decode
decode-encode bs h = ap decode_groups (skip_breaks-encode bs h) ∙ decode_groups-encode bs h
