-- ===== src/Sql/State.antt =====
-- The state that a database call works on, the statement and the transaction.
use micromart.Prelude.{ℕ, suc, String, ◌≡◌, false, Option, none, some, List, [], ◌∷◌}
use micromart.Prelude.Exec.{Result, ok, err, Exec}
use micromart.Prelude.Text.{is_empty}
use micromart.Prelude.Ascii.{IsAscii}

-- A call is carried out and answered; is not carried out, with an error; or is carried out, and
-- the caller sees an error because the answer is lost.
pub data Outcome : Type 0 where
  done failed lost : Outcome

-- `outcomes` says how the coming calls end; past its end they are carried out. `uuids` are the
-- values that gen_random_uuid() is going to return, and `now` is the value of NOW().
pub record World (T : Type 0) : Type 0 where
  pub tables : T
  pub outcomes : List Outcome
  pub uuids : ℕ → ℕ
  pub now : ℕ

-- How PostgreSQL reads a text as a UUID and prints one: a 128-bit number here, whose order is that
-- of `ORDER BY id`. What is printed is read back, and is ASCII and not the empty text.
pub record Uuids : Type 0 where
  pub parse : String → Option ℕ
  pub text : ℕ → String
  pub parse-text : (n : ℕ) → parse (text n) ≡ some n
  pub is_empty-text : (n : ℕ) → is_empty (text n) ≡ false
  pub IsAscii-text : (n : ℕ) → IsAscii (text n)

abbrev pub next_outcome : List Outcome → Outcome
next_outcome [] = done
next_outcome (o ∷ os) = o

abbrev pub later_outcomes : List Outcome → List Outcome
later_outcomes [] = []
later_outcomes (o ∷ os) = os

-- The world once a call has begun: its outcome is used up.
abbrev pub begun : {T : Type 0} → World T → World T
begun w = record w { outcomes = later_outcomes w.outcomes }

-- A world in which every call is carried out and answered.
abbrev pub calm : {T : Type 0} → T → (ℕ → ℕ) → ℕ → World T
calm t us n = record { tables = t; outcomes = []; uuids = us; now = n }

-- gen_random_uuid()
abbrev pub draw_uuid : {T : Type 0} → World T → World T
draw_uuid w = record w { uuids = λ n. w.uuids (suc n) }

module _ {T E A : Type 0} where
  -- `none` is a statement that the server refuses: a constraint, or a text that is no UUID.
  abbrev pub answer : E → World T → Option (A × World T) → Result E A × World T
  answer e w none = (err e, w)
  answer e w (some (a, w')) = (ok a, w')

  abbrev pub unanswered : E → World T → Option (A × World T) → Result E A × World T
  unanswered e w none = (err e, w)
  unanswered e w (some (a, w')) = (err e, w')

  abbrev pub run_statement :
      Outcome → E → (World T → Option (A × World T)) → World T → Result E A × World T
  run_statement done e body w = answer e w (body w)
  run_statement failed e body w = (err e, w)
  run_statement lost e body w = unanswered e w (body w)

  unfoldable pub statement : E → (World T → Option (A × World T)) → Exec (World T) E A
  statement e body w = run_statement (next_outcome w.outcomes) e body (begun w)

  -- How a transaction ends. The deferred tx.Rollback() undoes what an error leaves behind; after
  -- a commit whose answer is lost the work stands.
  abbrev pub finish : T → E → Outcome → Result E A × World T → Result E A × World T
  finish before e o (err e', w) = (err e', record w { tables = before })
  finish before e done (ok a, w) = (ok a, begun w)
  finish before e failed (ok a, w) = (err e, record (begun w) { tables = before })
  finish before e lost (ok a, w) = (err e, begun w)

  abbrev pub run_transaction : Outcome → E → Exec (World T) E A → Exec (World T) E A
  run_transaction done e body w =
      let (r, w') = body w in finish w.tables e (next_outcome w'.outcomes) (r, w')
  run_transaction failed e body w = (err e, w)
  run_transaction lost e body w = (err e, w)

  -- BeginTxx, the body, Commit
  unfoldable pub transaction : E → Exec (World T) E A → Exec (World T) E A
  transaction e body w = run_transaction (next_outcome w.outcomes) e body (begun w)
