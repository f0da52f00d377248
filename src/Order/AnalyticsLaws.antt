-- ===== src/Order/AnalyticsLaws.antt =====
-- What becomes of the events that are published.
use mathlib.Core.Path.{subst}
use micromart.Prelude.{
  ℕ, suc, ◌≤◌, ◌<◌, ◌≡◌, refl, sym, ap, ◌∙◌, inl, inr, true, some, List, [], ◌∷◌, ◌++◌, arith, ltb,
  leb, length, length-append, append_one, Bool-cases,
}
use micromart.Order.System.{OrderEvent}
use micromart.Order.Analytics.{
  Phase, running, draining, stopped, Consumer, capacity, new_consumer, FlushOutcome, flush, publish,
  take_event, move_event, flush_if_full, flush_if_any, Step, publishes, receives, ticks, closes,
  drains, ends, Run, here, next,
}
use mathlib.Core.List.{append_assoc}

-- How full the batch can be: below the batch size in the loop, and empty once the goroutine is gone.
abbrev pub BatchFits : ℕ → Phase → ℕ → Type 0
BatchFits batch_size running n = n < batch_size
BatchFits batch_size draining n = Unit
BatchFits batch_size stopped n = n ≡ 0

-- No event is lost on its way to flush, or comes twice or out of order; what waits has bounds.
pub record IsOrderly (batch_size : ℕ) (c : Consumer) : Type 0 where
  pub in_order : c.flushed ++ (c.batch ++ c.channel) ≡ c.accepted
  pub channel_fits : length c.channel ≤ capacity
  pub batch_fits : BatchFits batch_size c.phase (length c.batch)

-- The first two parts, which do not speak of the phase.
abbrev Queued : Consumer → Type 0
Queued c = (c.flushed ++ (c.batch ++ c.channel) ≡ c.accepted) × (length c.channel ≤ capacity)

Queued-flush : (o : FlushOutcome) (c : Consumer) → Queued c → Queued (flush o c)
unfolding flush
Queued-flush o c (q, h) = (append_assoc c.flushed c.batch c.channel ∙ q, h)

Queued-flush_if_any : (o : FlushOutcome) (c : Consumer) → Queued c → Queued (flush_if_any o c)
unfolding flush_if_any
Queued-flush_if_any o c q = elim (Bool-cases (ltb 0 (length c.batch))) [
  | inl any ↦ rw any (Queued-flush o c q)
  | inr no_one ↦ rw no_one q
]

Queued-flush_if_full :
    (n : ℕ) (o : FlushOutcome) (c : Consumer) → Queued c → Queued (flush_if_full n o c)
unfolding flush_if_full
Queued-flush_if_full n o c q = elim (Bool-cases (leb n (length c.batch))) [
  | inl full ↦ rw full (Queued-flush o c q)
  | inr room ↦ rw room q
]

Queued-publish : (event : OrderEvent) (c : Consumer) → Queued c → Queued (publish event c)
unfolding publish
Queued-publish event c (q, h) = elim (Bool-cases (ltb (length c.channel) capacity)) [
  | inl room ↦ rw room (
    ap (λ xs. c.flushed ++ xs) (sym (append_assoc c.batch c.channel (event ∷ [])))
        ∙ sym (append_assoc c.flushed (c.batch ++ c.channel) (event ∷ []))
        ∙ ap (λ xs. xs ++ event ∷ []) q,
    omega (arith, length-append c.channel (event ∷ []), room_lem room),
  )
  | inr full ↦ rw full (q, h)
]
  where
    room_lem : ltb (length c.channel) capacity ≡ true → length c.channel < capacity
    room_lem e = ground arith

-- What taking an event does.
abbrev Took : Consumer → Consumer → Type 0
Took c c' =
    (event : OrderEvent) × (events : List OrderEvent) × (c.channel ≡ event ∷ events)
    × (record c { channel = events; batch = c.batch ++ event ∷ [] } ≡ c')

move_event-Took :
    (events : List OrderEvent) (c : Consumer) {c' : Consumer}
    → c.channel ≡ events
    → move_event events c ≡ some c'
    → Took c c'
move_event-Took [] c e h = cc
move_event-Took (event ∷ events) c e h = (event, events, e, ground arith)

take_event-Took : (c : Consumer) {c' : Consumer} → take_event c ≡ some c' → Took c c'
unfolding take_event
take_event-Took c h = move_event-Took c.channel c refl h

Took-Queued : (c c' : Consumer) → Took c c' → Queued c → Queued c'
Took-Queued c c' (event, events, full, same) (q, h) = subst Queued same (
  ap (λ xs. c.flushed ++ xs) (append_one c.batch event events ∙ ap (λ xs. c.batch ++ xs) (sym full))
      ∙ q,
  omega (arith, h, ap length full),
)

Took-phase : (c c' : Consumer) → Took c c' → c'.phase ≡ c.phase
Took-phase c c' (_, _, _, same) i = (sym same i).phase

Took-length : (c c' : Consumer) → Took c c' → length c'.batch ≡ suc (length c.batch)
Took-length c c' (event, events, _, same) =
    ap (λ (x : Consumer). length x.batch) (sym same)
    ∙ length-append c.batch (event ∷ [])
    ∙ omega arith

Queued-IsOrderly :
    (n : ℕ) (c : Consumer) → Queued c → BatchFits n c.phase (length c.batch) → IsOrderly n c
Queued-IsOrderly n c (q, h) fits = record { in_order = q; channel_fits = h; batch_fits = fits }

publish_keeps :
    (event : OrderEvent) (c : Consumer)
    → ((publish event c).phase ≡ c.phase) × ((publish event c).batch ≡ c.batch)
unfolding publish
publish_keeps event c = elim (Bool-cases (ltb (length c.channel) capacity)) [
  | inl room ↦ rw room (refl, refl)
  | inr full ↦ rw full (refl, refl)
]

flush_if_full_fits :
    (n : ℕ) (o : FlushOutcome) (c : Consumer)
    → 0 < n
    → c.phase ≡ running
    → BatchFits n (flush_if_full n o c).phase (length (flush_if_full n o c).batch)
unfolding flush_if_full flush
flush_if_full_fits n o c h p = elim (Bool-cases (leb n (length c.batch))) [
  | inl full ↦ rw (full, p) h
  | inr room ↦ rw (room, p) (ground arith)
]

flush_if_any_fits :
    (o : FlushOutcome) (c : Consumer)
    → ((flush_if_any o c).phase ≡ c.phase) × (length (flush_if_any o c).batch ≡ 0)
unfolding flush_if_any flush
flush_if_any_fits o c = elim (Bool-cases (ltb 0 (length c.batch))) [
  | inl any ↦ rw any (refl, refl)
  | inr no_one ↦ rw no_one (refl, ground arith)
]

Step-IsOrderly : (n : ℕ) {c c' : Consumer} → 0 < n → Step n c c' → IsOrderly n c → IsOrderly n c'
Step-IsOrderly n h (publishes event c) i =
    let (p, b) = publish_keeps event c in
    Queued-IsOrderly n (publish event c) (Queued-publish event c (i.in_order, i.channel_fits))
      (rw (p, b) i.batch_fits)
Step-IsOrderly n h (receives o {c} {c'} p t) i =
    let took = take_event-Took c t in
    Queued-IsOrderly n (flush_if_full n o c')
      (Queued-flush_if_full n o c' (Took-Queued c c' took (i.in_order, i.channel_fits)))
      (flush_if_full_fits n o c' h (Took-phase c c' took ∙ p))
Step-IsOrderly n h (ticks o c p) i =
    let (q, b) = flush_if_any_fits o c in
    Queued-IsOrderly n (flush_if_any o c) (Queued-flush_if_any o c (i.in_order, i.channel_fits))
      (rw (b, q, p) h)
Step-IsOrderly n h (closes c p) i =
    Queued-IsOrderly n (record c { phase = draining }) (i.in_order, i.channel_fits) tt
Step-IsOrderly n h (drains {c} {c'} p t) i =
    let took = take_event-Took c t in
    Queued-IsOrderly n c' (Took-Queued c c' took (i.in_order, i.channel_fits))
      (rw (Took-phase c c' took, p) tt)
Step-IsOrderly n h (ends o c p e) i =
    Queued-IsOrderly n (record (flush_if_any o c) { phase = stopped })
      (Queued-flush_if_any o c (i.in_order, i.channel_fits)) (flush_if_any_fits o c).1

-- However Publish, the goroutine and Close interleave and however the flushes end, with a batch size
-- that is not 0: what was flushed, then what is in the batch, then what is in the channel, is what the
-- channel has accepted, in order and without repetition; the channel holds at most 1000 events; and
-- the batch holds less than the batch size in the loop, and nothing once the goroutine is gone.
pub Run-IsOrderly :
    (batch_size : ℕ) {c : Consumer}
    → 0 < batch_size
    → Run batch_size new_consumer c
    → IsOrderly batch_size c
Run-IsOrderly n h here = record { in_order = refl; channel_fits = omega arith; batch_fits = h }
Run-IsOrderly n h (next r s) = Step-IsOrderly n h s (Run-IsOrderly n h r)
