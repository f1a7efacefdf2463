-- ===== src/Orders/Webhook.antt =====
-- `paystackWebhookHandler` of handlers/orders.ts, for a raw body, as app.ts sets it up.
pub mod Signature
use jhaz_imprints.Common.{
  String, Bool, true, false, Option, none, some, ◌==◌, if◌then◌else◌, Result, ok, err, app_error,
  error, Exec, pure, or_throw, guard, ◌>>=◌, ◌>>◌,
}
use jhaz_imprints.Numbers.{Arith}
use jhaz_imprints.Schema.{OrderStatus, PaymentStatus, Db}
use jhaz_imprints.Paystack.{Reply, VerifyBody, verify_webhook_signature}
use jhaz_imprints.Orders.Notes.{OrderView, non_empty}
use jhaz_imprints.Orders.Confirm.{Confirmation, confirm_payment}

-- The `data` of the answer, which has the HTTP status 200.
pub record WebhookAnswer : Type 0 where
  pub order_id : Option String
  pub status : OrderStatus
  pub payment_status : Option PaymentStatus
  pub already_processed : Bool

abbrev status_of : {F : Type 0} → Option (OrderView F) → OrderStatus
status_of none = OrderStatus.pending
status_of (some v) = v.order.status

abbrev id_of : {F : Type 0} → Option (OrderView F) → Option String
id_of none = none
id_of (some v) = some v.order.id

abbrev pub answer_to : {F : Type 0} → Confirmation F → WebhookAnswer
answer_to c = record {
  order_id = id_of c.order;
  status = status_of c.order;
  payment_status = c.status;
  already_processed = c.already_processed;
}

abbrev named : Option (Option String) → Option String
named none = none
named (some reference) = non_empty reference

-- A missing header counts as a bad one.
abbrev pub is_signed : (String → String → String) → Option String → String → Option String → Bool
is_signed hmac secret raw none = false
is_signed hmac secret raw (some signature) =
    if signature == "" then false else verify_webhook_signature hmac secret raw (some signature)

module _ {F : Type 0} (num : Arith F) (fetch_verify : String → Reply (VerifyBody F))
    (hmac : String → String → String) (secret : Option String)
    -- the `data.reference` of a JSON text, where it is one
    (parse : String → Option (Option String)) where
  abbrev parsed_body : String → Exec (Db F) (Option String)
  parsed_body raw = or_throw (error "SyntaxError") (parse raw)

  unfoldable pub paystack_webhook_handler :
      Bool → String → Option String → Exec (Db F) WebhookAnswer
  paystack_webhook_handler queue_up raw signature = do
    data' ← parsed_body raw
    reference ← or_throw (app_error 400 "Invalid webhook payload") (non_empty data')
    guard (is_signed hmac secret raw signature) (app_error 401 "Invalid paystack signature")
    result ← confirm_payment num fetch_verify queue_up reference none
    pure (answer_to result)
