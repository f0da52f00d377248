-- ===== src/Tests/Analytics.antt =====
-- The consumer of order events with a batch size of two.
use micromart.Prelude.{◌≡◌, refl, true, [], ◌∷◌, ◌++◌, arith}
use micromart.Prelude.Int.{pos}
use micromart.Order.Entity.{OrderStatus}
use micromart.Order.System.{OrderEvent}
use micromart.Order.Analytics.{
  Consumer, draining, stopped, send_failed, sent, new_consumer, publish, take_event, flush_if_full,
  written, publishes, receives, closes, Run, here, next,
}
use micromart.Order.AnalyticsLaws.{IsOrderly, Run-IsOrderly}
use micromart.Order.AnalyticsStop.{Run-stops}

abbrev event : OrderEvent
event = record {
  order_id = "5";
  customer_id = "ann";
  status = OrderStatus.completed;
  total_cents = pos 3000;
  item_count = pos 1;
  created_at = 1;
  completed_at = 2;
}

-- Two events published, one received, and then Close.
abbrev one_received : Consumer
one_received = record new_consumer {
  channel = event ∷ [];
  batch = event ∷ [];
  accepted = event ∷ event ∷ [];
}

receives_one : Run 2 new_consumer one_received
unfolding publish take_event flush_if_full
receives_one =
    next
      (next (next here (publishes event new_consumer))
        (publishes event (publish event new_consumer)))
      (receives send_failed refl refl)

abbrev closed : Consumer
closed = record one_received { phase = draining }

Run-IsOrderly_example : IsOrderly 2 one_received
Run-IsOrderly_example = Run-IsOrderly 2 (omega arith) receives_one

Run-stops_example :
    (c' : Consumer) × Run 2 closed c'
    × (c'.phase ≡ stopped)
    × (c'.flushed ≡ closed.accepted)
    × (c'.stored ≡ closed.stored ++ written (sent (λ e. true)) (closed.batch ++ closed.channel))
Run-stops_example =
    Run-stops 2 (sent (λ e. true)) (omega arith) refl (next receives_one (closes one_received refl))
