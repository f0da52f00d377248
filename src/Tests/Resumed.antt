-- ===== src/Tests/Resumed.antt =====
-- A start of the order service after a crash in the middle of a saga that had reserved its stock.
use micromart.Prelude.{some, [], ◌∷◌}
use micromart.Order.Entity.{SagaState, Tables}
use micromart.Tests.Fixtures.{digits, order_five, saga_nine}

abbrev interrupted_saga : SagaState
interrupted_saga = record saga_nine { reservation_id = some 5 }

abbrev crashed_desk : Tables
crashed_desk = record { orders = order_five ∷ []; order_items = []; sagas = interrupted_saga ∷ [] }
