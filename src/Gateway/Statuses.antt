-- ===== src/Gateway/Statuses.antt =====
-- The gateway in front of the order service: which HTTP statuses a client sees.
use micromart.Prelude.{ℕ, ◌≡◌, refl, true, List, [], ◌∷◌}
use micromart.Prelude.Exec.{Result, ok, err, Exec}
use micromart.Sql.{Uuids}
use micromart.Grpc.Status.{Code}
use micromart.Grpc.Connection.{
  Failure, unreachable, timed_out, gone_away, failure_code, Fate, delivered, request_lost,
  answer_lost, dial,
}
use micromart.Order.System.{System}
use micromart.Order.OrderList.{list_orders_call}
use micromart.Order.Server.{Server, create_order, get_order, cancel_order}
use micromart.Gateway.Http.{Reply, data_reply, error_reply, forward, reply_with, grpc_to_http}
use micromart.Gateway.Orders.{OrderServiceClient, Request, post, get_list, get_one, post_cancel}
use micromart.Prelude.Raises.{OnError, Raises}
use micromart.Gateway.ServerCodes.{is_one_of, shown_as}

-- NewOrderServiceClient of the gateway's connection to the order server, where the call that a
-- request makes has this fate.
abbrev pub order_client :
    {S : Type 0} → Fate → Server S → ⦃u : Uuids⦄ → OrderServiceClient (System S)
order_client fate server = record {
  create_order = λ req. dial fate (create_order server req);
  get_order = λ id. dial fate (get_order server id);
  list_orders = λ customer_id page_size page_token.
      dial fate (list_orders_call customer_id page_size page_token);
  cancel_order = λ id. dial fate (cancel_order server id);
}

-- A reply is data with this status, or an error with one of those.
abbrev pub Answers : {A : Type 0} → ℕ → List ℕ → Reply A → Type 0
Answers success errors (data_reply status a) = status ≡ success
Answers success errors (error_reply status) = is_one_of errors status ≡ true

reply_with-Answers :
    {A B : Type 0} (success : ℕ) (errors : List ℕ) (render : A → B) (r : Result Code A)
    → OnError (shown_as errors) r
    → Answers success errors (reply_with success render r)
reply_with-Answers success errors render (ok a) h = refl
reply_with-Answers success errors render (err e) h = h

-- The errors that a client of a route may see where the service answers.
abbrev pub errors_of : Request → List ℕ
errors_of (post body) = 400 ∷ 404 ∷ 422 ∷ 500 ∷ []
errors_of (get_list customer_id page_token page_size) = 400 ∷ 500 ∷ []
errors_of (get_one id) = 400 ∷ 404 ∷ 500 ∷ []
errors_of (post_cancel id) = 400 ∷ 404 ∷ 422 ∷ []

abbrev pub failure_status : Failure → ℕ
failure_status unreachable = 503
failure_status timed_out = 504
failure_status gone_away = 500

-- The reply is an error, one of these.
abbrev pub Fails : {A : Type 0} → List ℕ → Reply A → Type 0
Fails errors (data_reply status a) = ⊥
Fails errors (error_reply status) = is_one_of errors status ≡ true

-- The reply where this becomes of the gateway's call: as the service answers, and else an error, that
-- of the failure, or 400 for a request that comes to no call.
abbrev pub AnswersOver : {A : Type 0} → Fate → ℕ → List ℕ → Reply A → Type 0
AnswersOver delivered success errors reply = Answers success errors reply
AnswersOver (request_lost why) success errors reply = Fails (400 ∷ failure_status why ∷ []) reply
AnswersOver (answer_lost why) success errors reply = Fails (400 ∷ failure_status why ∷ []) reply

abbrev pub success_of : Request → ℕ
success_of (post body) = 201
success_of _ = 200

failed-Fails :
    {A B : Type 0} (success : ℕ) (render : A → B) (why : Failure)
    → Fails (400 ∷ failure_status why ∷ []) (reply_with success render (err (failure_code why)))
unfolding grpc_to_http
failed-Fails success render unreachable = refl
failed-Fails success render timed_out = refl
failed-Fails success render gone_away = refl

pub forward-AnswersOver :
    {S A B : Type 0} (success : ℕ) (errors : List ℕ) (render : A → B) (fate : Fate)
    (call : Exec S Code A) (s : S)
    → Raises (shown_as errors) call
    → AnswersOver fate success errors (forward success render (dial fate call) s).0
forward-AnswersOver success errors render delivered call s h =
    reply_with-Answers success errors render (call s).0 (h s)
forward-AnswersOver success errors render (request_lost why) call s h =
    failed-Fails success render why
forward-AnswersOver success errors render (answer_lost why) call s h =
    failed-Fails success render why

-- The 400 that the gateway answers with itself.
pub refused-AnswersOver :
    (A : Type 0) (success : ℕ) (errors : List ℕ) (fate : Fate)
    → is_one_of errors 400 ≡ true
    → AnswersOver {A = A} fate success errors (error_reply 400)
refused-AnswersOver A success errors delivered h = h
refused-AnswersOver A success errors (request_lost why) h = refl
refused-AnswersOver A success errors (answer_lost why) h = refl
