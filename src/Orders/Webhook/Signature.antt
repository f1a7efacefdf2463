-- ===== src/Orders/Webhook/Signature.antt =====
-- Nothing but a signed webhook touches the orders.
use jhaz_imprints.Common.{
  String, ◌≡◌, ◌≢◌, inl, inr, Bool, true, Option, none, some, arith, ◌==◌, eq_iff, Option-cases,
  Bool-cases,
}
use jhaz_imprints.Numbers.{Arith}
use jhaz_imprints.Schema.{Db}
use jhaz_imprints.Paystack.{Reply, VerifyBody, verify_webhook_signature}
use jhaz_imprints.Orders.Confirm.{confirm_payment}
use jhaz_imprints.Orders.Webhook.{is_signed, paystack_webhook_handler}

module _ (hmac : String → String → String) (secret : Option String) (raw : String)
    (signature : Option String) where
  -- The header has the body's digest under a secret that is set.
  pub record IsSigned : Type 0 where
    pub key : String
    pub digest : String
    pub set : secret ≡ some key
    pub non_blank : key ≢ ""
    pub header : signature ≡ some digest
    pub same : hmac key raw ≡ digest

  signed-IsSigned : is_signed hmac secret raw signature ≡ true → IsSigned
  unfolding verify_webhook_signature
  signed-IsSigned h = elim (Option-cases secret) [
    | inl unset ↦ elim (Option-cases signature) [
      | inl missing ↦ ground arith
      | inr (d, header) ↦ ground arith
    ]
    | inr (k, set) ↦ elim (Option-cases signature) [
      | inl missing ↦ ground arith
      | inr (d, header) ↦ record {
        key = k;
        digest = d;
        set = set;
        non_blank = λ blank. ground (arith, eq_iff k "");
        header = header;
        same = ground (arith, eq_iff (hmac k raw) d);
      }
    ]
  ]

-- A call of the webhook changes the state only if its header is the digest of the body under the
-- secret; then the body is JSON with a reference, and the new state is the one that the confirmation
-- of that reference, without a caller, leaves.
pub paystack_webhook_handler-IsSigned :
    {F : Type 0} (num : Arith F) (fetch : String → Reply (VerifyBody F))
    (hmac : String → String → String) (secret : Option String)
    (parse : String → Option (Option String)) (queue_up : Bool) (raw : String)
    (signature : Option String) (s : Db F)
    → (paystack_webhook_handler num fetch hmac secret parse queue_up raw signature s).1 ≢ s
    → IsSigned hmac secret raw signature
      × ((reference : String) × (parse raw ≡ some (some reference))
          × (reference ≢ "")
          × ((paystack_webhook_handler num fetch hmac secret parse queue_up raw signature s).1
              ≡ (confirm_payment num fetch queue_up reference none s).1))
unfolding paystack_webhook_handler
paystack_webhook_handler-IsSigned num fetch hmac secret parse queue_up raw signature s changed =
    elim (Option-cases (parse raw)) [
      | inl garbled ↦ absurd (changed (ground arith))
      | inr (found, read) ↦ elim (Option-cases found) [
        | inl nameless ↦ absurd (changed (ground arith))
        | inr (reference, named) ↦ elim (Bool-cases (reference == "")) [
          | inl blank ↦ absurd (changed (ground arith))
          | inr present ↦ elim (Bool-cases (is_signed hmac secret raw signature)) [
            | inr unsigned ↦ absurd (changed (ground arith))
            | inl signed ↦ (
              signed-IsSigned hmac secret raw signature signed,
              (reference, ground arith, λ blank. ground (arith, eq_iff reference ""), ground arith),
            )
          ]
        ]
      ]
    ]
