-- ===== src/Order/System.antt =====
-- The state that the order service works on: its database, the remote side of its calls, and the
-- events that it has published.
use micromart.Prelude.{ℕ, String, List}
use micromart.Prelude.Int.{ℤ}
use micromart.Prelude.Exec.{ok, Exec}
use micromart.Sql.{World}
use micromart.Order.Entity.{OrderStatus, Tables}

-- services/order/clickhouse.go
pub record OrderEvent : Type 0 where
  pub order_id : String
  pub customer_id : String
  pub status : OrderStatus
  pub total_cents : ℤ
  pub item_count : ℤ  -- int32
  pub created_at : ℕ
  pub completed_at : ℕ

pub record System (S : Type 0) : Type 0 where
  pub db : World Tables
  pub remote : S
  pub events : List OrderEvent

module _ {S E A : Type 0} where
  -- A call of the database.
  abbrev pub on_db : Exec (World Tables) E A → Exec (System S) E A
  on_db m s = let (r, db') = m s.db in (r, record s { db = db' })

  -- A call of the remote side.
  abbrev pub on_remote : Exec S E A → Exec (System S) E A
  on_remote m s = let (r, remote') = m s.remote in (r, record s { remote = remote' })

-- `_, _ = call`: the result and the error are dropped.
abbrev pub ignored : {S E F A : Type 0} → Exec S E A → Exec S F (Unit {0})
ignored m s = (ok tt, (m s).1)
