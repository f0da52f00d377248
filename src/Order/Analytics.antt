-- ===== src/Order/Analytics.antt =====
-- services/order/clickhouse.go: Publish, the goroutine of StartConsumer, flush and Close. The
-- goroutine, the sagas that publish and the call of Close interleave, and so a run is a sequence of
-- steps. Log lines are left out.
use micromart.Prelude.{
  ℕ, ◌≡◌, Bool, Option, none, some, List, [], ◌∷◌, ◌++◌, ltb, leb, if◌then◌else◌, filter, length,
}
use micromart.Order.System.{OrderEvent}

-- Where the goroutine is: in its loop, in the loop behind `<-c.done`, or gone.
pub data Phase : Type 0 where
  running draining stopped : Phase

-- `channel` and `batch` are the code's. The rest is history: the events that the channel took, those
-- that Publish dropped, those that flush was given, and those that ClickHouse has got.
pub record Consumer : Type 0 where
  pub channel : List OrderEvent
  pub batch : List OrderEvent
  pub phase : Phase
  pub accepted : List OrderEvent
  pub dropped : List OrderEvent
  pub flushed : List OrderEvent
  pub stored : List OrderEvent

-- make(chan *OrderEvent, 1000)
abbrev pub capacity : ℕ
capacity = 1000

abbrev pub new_consumer : Consumer
new_consumer = record {
  channel = [];
  batch = [];
  phase = running;
  accepted = [];
  dropped = [];
  flushed = [];
  stored = [];
}

-- How the calls of a flush end. Where the batch is sent, a test says which events Append took.
pub data FlushOutcome : Type 0 where
  prepare_failed send_failed : FlushOutcome
  sent : (OrderEvent → Bool) → FlushOutcome

abbrev pub written : FlushOutcome → List OrderEvent → List OrderEvent
written prepare_failed events = []
written send_failed events = []
written (sent appended) events = filter appended events

-- flush, and `batch = batch[:0]`: an error is logged, and the events are gone.
unfoldable pub flush : FlushOutcome → Consumer → Consumer
flush o c = record c {
  stored = c.stored ++ written o c.batch;
  flushed = c.flushed ++ c.batch;
  batch = [];
}

-- Publish: an event is dropped when the channel is full.
unfoldable pub publish : OrderEvent → Consumer → Consumer
publish event c =
    if ltb (length c.channel) capacity
    then record c { channel = c.channel ++ event ∷ []; accepted = c.accepted ++ event ∷ [] }
    else record c { dropped = c.dropped ++ event ∷ [] }

-- `event := <-c.events; batch = append(batch, event)`, where there is an event.
abbrev pub move_event : List OrderEvent → Consumer → Option Consumer
move_event [] c = none
move_event (event ∷ events) c = some (record c { channel = events; batch = c.batch ++ event ∷ [] })

unfoldable pub take_event : Consumer → Option Consumer
take_event c = move_event c.channel c

-- `if len(batch) >= batchSize`
unfoldable pub flush_if_full : ℕ → FlushOutcome → Consumer → Consumer
flush_if_full batch_size o c = if leb batch_size (length c.batch) then flush o c else c

-- `if len(batch) > 0`
unfoldable pub flush_if_any : FlushOutcome → Consumer → Consumer
flush_if_any o c = if ltb 0 (length c.batch) then flush o c else c

-- One thing that can happen. Of the cases of a select that are ready, any can be taken.
pub data Step (batch_size : ℕ) : Consumer → Consumer → Type 0 where
  publishes : (event : OrderEvent) (c : Consumer) → Step batch_size c (publish event c)
  receives :
      (o : FlushOutcome) {c c' : Consumer}
      → c.phase ≡ running
      → take_event c ≡ some c'
      → Step batch_size c (flush_if_full batch_size o c')
  ticks :
      (o : FlushOutcome) (c : Consumer) → c.phase ≡ running → Step batch_size c (flush_if_any o c)
  closes : (c : Consumer) → c.phase ≡ running → Step batch_size c (record c { phase = draining })
  drains : {c c' : Consumer} → c.phase ≡ draining → take_event c ≡ some c' → Step batch_size c c'
  ends :
      (o : FlushOutcome) (c : Consumer)
      → c.phase ≡ draining
      → c.channel ≡ []
      → Step batch_size c (record (flush_if_any o c) { phase = stopped })

pub data Run (batch_size : ℕ) (s : Consumer) : Consumer → Type 0 where
  here : Run batch_size s s
  next : {c c' : Consumer} → Run batch_size s c → Step batch_size c c' → Run batch_size s c'
