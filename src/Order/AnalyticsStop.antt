-- ===== src/Order/AnalyticsStop.antt =====
-- How the goroutine of the analytics stops.
use mathlib.Core.Path.{subst}
use micromart.Prelude.{
  ℕ, ◌≡◌, refl, sym, ◌∙◌, inl, inr, some, List, [], ◌∷◌, ◌++◌, arith, ltb, ◌<◌, length, append-nil,
  append_one, Bool-cases,
}
use micromart.Order.System.{OrderEvent}
use micromart.Order.Analytics.{
  draining, stopped, Consumer, new_consumer, FlushOutcome, written, flush, take_event, flush_if_any,
  drains, ends, Run, here, next,
}
use micromart.Order.AnalyticsLaws.{Run-IsOrderly}

-- The state with the batch `b` and an empty channel, after the last flush.
abbrev ended : FlushOutcome → List OrderEvent → Consumer → Consumer
ended o b c = record (flush_if_any o (record c { channel = []; batch = b })) { phase = stopped }

drains_all :
    (n : ℕ) (o : FlushOutcome) (s c : Consumer) (events : List OrderEvent)
    → c.channel ≡ events
    → c.phase ≡ draining
    → Run n s c
    → Run n s (ended o (c.batch ++ events) c)
drains_all n o s c [] none_left p r =
    let same : record c { channel = []; batch = c.batch ++ [] } ≡ c =
      λ i. record c { channel = sym none_left i; batch = append-nil c.batch i } in
    subst (λ (x : Consumer). Run n s (record (flush_if_any o x) { phase = stopped })) (sym same)
      (next r (ends o c p none_left))
drains_all n o s c (event ∷ events) full p r =
    let taken : Consumer = record c { channel = events; batch = c.batch ++ event ∷ [] } in
    subst (λ (b : List OrderEvent). Run n s (ended o b c)) (append_one c.batch event events)
      (drains_all n o s taken events refl p (next r (drains p (took full))))
  where
    took :
        c.channel ≡ event ∷ events
        → take_event c ≡ some (record c { channel = events; batch = c.batch ++ event ∷ [] })
    took e = unfold take_event in rw e refl

written-nil : (o : FlushOutcome) → written o [] ≡ []
written-nil FlushOutcome.prepare_failed = refl
written-nil FlushOutcome.send_failed = refl
written-nil (FlushOutcome.sent f) = refl

ended_lem :
    (o : FlushOutcome) (b : List OrderEvent) (c : Consumer)
    → ((ended o b c).flushed ≡ c.flushed ++ b) × ((ended o b c).stored ≡ c.stored ++ written o b)
unfolding flush_if_any flush
ended_lem o [] c = (sym (append-nil c.flushed), rw (written-nil o) (sym (append-nil c.stored)))
ended_lem o (e ∷ b) c = elim (Bool-cases (ltb 0 (length (e ∷ b)))) [
  | inl any ↦ rw any (refl, refl)
  | inr no_one ↦ absurd (ground (arith, no_one))
]

-- After Close, from whatever state a run has come to and however the last flush ends, the goroutine
-- can go on from that state to one in which it has stopped; then every event that the channel has
-- accepted was flushed, in order, and ClickHouse has got, beside what it had, what the last flush
-- wrote of the batch and the channel.
pub Run-stops :
    (batch_size : ℕ) (o : FlushOutcome) {c : Consumer}
    → 0 < batch_size
    → c.phase ≡ draining
    → Run batch_size new_consumer c
    → (c' : Consumer) × Run batch_size c c'
      × (c'.phase ≡ stopped)
      × (c'.flushed ≡ c.accepted)
      × (c'.stored ≡ c.stored ++ written o (c.batch ++ c.channel))
Run-stops n o {c} h p r =
    let (all_flushed, all_stored) = ended_lem o (c.batch ++ c.channel) c in
    (
      ended o (c.batch ++ c.channel) c,
      drains_all n o c c c.channel refl p here,
      refl,
      all_flushed ∙ (Run-IsOrderly n h r).in_order,
      all_stored,
    )
