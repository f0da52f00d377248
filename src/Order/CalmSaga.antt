-- ===== src/Order/CalmSaga.antt =====
-- A saga leaves a database that answers every call as one that does.
use micromart.Prelude.{ℕ, ◌≡◌, refl, ◌∙◌, Option, none, some, List, []}
use micromart.Prelude.Keeps.{Keeps}
use micromart.Sql.{World, Outcome, Uuids, statement, answer}
use micromart.Sql.Tables.{and_then}
use micromart.Order.Entity.{SagaState, OrderStatus, other}
use micromart.Order.SagaRows.{update_saga, update_order}
use micromart.Order.System.{System}
use micromart.Order.SagaKeeps.{StepRules, run_steps-Keeps}
use micromart.Order.Saga.{
  Orchestrator, SagaInput, update_step, set_reservation_id, update_order_status, complete_saga,
  fail, run_steps,
}

-- Every call that is still to come is carried out and answered.
abbrev pub IsCalm : {T : Type 0} → World T → Type 0
IsCalm w = w.outcomes ≡ []

abbrev pub IsCalmDb : {S : Type 0} → System S → Type 0
IsCalmDb s = IsCalm s.db

abbrev pub outcomes_after : {T A : Type 0} → World T → Option (A × World T) → List Outcome
outcomes_after w none = w.outcomes
outcomes_after w (some (a, w')) = w'.outcomes

-- A statement's body leaves the outcomes to come alone.
abbrev pub KeepsOutcomes : {T A : Type 0} → (World T → Option (A × World T)) → Type 0
KeepsOutcomes {T} body = (w : World T) → outcomes_after w (body w) ≡ w.outcomes

answer_lem :
    {T E A : Type 0} (e : E) (w : World T) (r : Option (A × World T))
    → (answer e w r).1.outcomes ≡ outcomes_after w r
answer_lem e w none = refl
answer_lem e w (some (a, w')) = refl

pub statement-IsCalm :
    {T E A : Type 0} (e : E) (body : World T → Option (A × World T))
    → KeepsOutcomes body
    → Keeps IsCalm (statement e body)
unfolding statement
statement-IsCalm e body k w h =
    let w' = record w { outcomes = [] } in rw h (answer_lem e w' (body w') ∙ k w')

update_saga_lem : (set : SagaState → SagaState) (g : ℕ) → KeepsOutcomes (update_saga set g)
unfolding update_saga
update_saga_lem set g w = refl

update_order_lem : (st : OrderStatus) (k : ℕ) → KeepsOutcomes (update_order st k)
unfolding update_order
update_order_lem st k w = refl

set_reservation_lem :
    (r : Option ℕ) (set : ℕ → SagaState → SagaState) (g : ℕ)
    → KeepsOutcomes (λ w. and_then r λ k. update_saga (set k) g w)
set_reservation_lem none set g w = refl
set_reservation_lem (some k) set g w = update_saga_lem (set k) g w

-- The database after a write to a saga, and to an order.
saga_write :
    (set : SagaState → SagaState) (g : ℕ) → Keeps IsCalm (statement other (update_saga set g))
saga_write set g = statement-IsCalm other (update_saga set g) (update_saga_lem set g)

order_write : (st : OrderStatus) (k : ℕ) → Keeps IsCalm (statement other (update_order st k))
order_write st k = statement-IsCalm other (update_order st k) (update_order_lem st k)

module _ {S : Type 0} (saga : Orchestrator S) ⦃u : Uuids⦄ where
  IsCalmDb-StepRules : StepRules saga IsCalmDb
  unfolding fail update_step update_order_status complete_saga set_reservation_id
  IsCalmDb-StepRules = record {
    step = λ id st s h. saga_write _ id s.db h;
    order = λ id st s h. order_write st id s.db h;
    reservation = λ id text s h.
        statement-IsCalm other _
          (set_reservation_lem (u.parse text) (λ k s. record s { reservation_id = some k }) id) s.db
          h;
    completion = λ id s h. saga_write _ id s.db h;
    failure = λ id order_id why s h. order_write _ order_id _ (saga_write _ id s.db h);
    event = λ input s h. h;
    reserve = λ id items s h. h;
    release = λ id s h. h;
    decrement = λ id s h. h;
    payment = λ id s h. h;
  }

  pub run_steps-IsCalm : (input : SagaInput) (g : ℕ) → Keeps IsCalmDb (run_steps saga input g)
  run_steps-IsCalm = run_steps-Keeps saga IsCalmDb IsCalmDb-StepRules
