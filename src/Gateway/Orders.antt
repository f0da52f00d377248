-- ===== src/Gateway/Orders.antt =====
-- services/gateway/order_handler.go and order_dto.go.
use micromart.Prelude.{String, Option, List, map, if◌then◌else◌}
use micromart.Prelude.Int.{ℤ}
use micromart.Prelude.Text.{is_empty}
use micromart.Prelude.Exec.{Exec}
use micromart.Grpc.Status.{Code}
use micromart.Order.Messages
use micromart.Order.Messages.{OrderMessage}
use micromart.Gateway.Http.{
  Texts, Handler, forward, bad_request, with_body, PaginatedResponse, page_size_param,
}

-- orderv1.OrderServiceClient
pub record OrderServiceClient (S : Type 0) : Type 0 where
  pub create_order : Messages.CreateOrderRequest → Exec S Code OrderMessage
  pub get_order : String → Exec S Code OrderMessage
  pub list_orders : String → ℤ → String → Exec S Code (List OrderMessage × String)
  pub cancel_order : String → Exec S Code OrderMessage

pub record CreateOrderItem : Type 0 where
  pub product_id : String
  pub quantity : ℤ  -- int32

pub record CreateOrderRequest : Type 0 where
  pub customer_id : String
  pub items : List CreateOrderItem
  pub idempotency_key : String

pub record OrderItemResponse : Type 0 where
  pub product_id : String
  pub product_name : String
  pub quantity : ℤ  -- int32
  pub unit_price_cents : ℤ  -- int64

pub record OrderResponse : Type 0 where
  pub id : String
  pub customer_id : String
  pub status : String
  pub items : List OrderItemResponse
  pub total_cents : ℤ  -- int64
  pub created_at : String
  pub updated_at : String

unfoldable pub order_to_response : Texts → OrderMessage → OrderResponse
order_to_response texts o = record {
  id = o.id;
  customer_id = o.customer_id;
  status = texts.status_text o.status;
  items =
      map
        (λ item. record {
          product_id = item.product_id;
          product_name = item.product_name;
          quantity = item.quantity;
          unit_price_cents = item.unit_price_cents;
        })
        o.items;
  total_cents = o.total_cents;
  created_at = texts.time_text o.created_at;
  updated_at = texts.time_text o.updated_at;
}

-- The message that Create sends.
unfoldable pub create_message : CreateOrderRequest → Messages.CreateOrderRequest
create_message req = record {
  customer_id = req.customer_id;
  idempotency_key = req.idempotency_key;
  items = map (λ item. record { product_id = item.product_id; quantity = item.quantity }) req.items;
}

abbrev pub list_response : Texts → List OrderMessage × String → PaginatedResponse OrderResponse
list_response texts (orders, next_page_token) = record {
  entries = map (order_to_response texts) orders;
  next_page_token = next_page_token;
}

module _ {S : Type 0} (texts : Texts) (client : OrderServiceClient S) where
  -- (h *OrderHandler) Create
  unfoldable pub create : Option CreateOrderRequest → Handler S OrderResponse
  create body =
      with_body body
        λ req. forward 201 (order_to_response texts) (client.create_order (create_message req))

  -- (h *OrderHandler) Get
  unfoldable pub get : String → Handler S OrderResponse
  get id = forward 200 (order_to_response texts) (client.get_order id)

  -- (h *OrderHandler) List, of the query parameters customer_id, page_token and page_size
  unfoldable pub list : String → String → String → Handler S (PaginatedResponse OrderResponse)
  list customer_id page_token page_size =
      if is_empty customer_id
      then bad_request
      else forward 200 (list_response texts)
          (client.list_orders customer_id (page_size_param page_size) page_token)

  -- (h *OrderHandler) Cancel
  unfoldable pub cancel : String → Handler S OrderResponse
  cancel id = forward 200 (order_to_response texts) (client.cancel_order id)

-- The routes under /orders of main.go.
pub data Request : Type 0 where
  post : Option CreateOrderRequest → Request
  get_list : String → String → String → Request
  get_one post_cancel : String → Request

abbrev pub ResponseTo : Request → Type 0
ResponseTo (get_list customer_id page_token page_size) = PaginatedResponse OrderResponse
ResponseTo _ = OrderResponse

unfoldable pub serve :
    {S : Type 0}
    → Texts
    → OrderServiceClient S
    → (request : Request) → Handler S (ResponseTo request)
serve texts client (post body) = create texts client body
serve texts client (get_list customer_id page_token page_size) =
    list texts client customer_id page_token page_size
serve texts client (get_one id) = get texts client id
serve texts client (post_cancel id) = cancel texts client id
