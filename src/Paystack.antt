-- ===== src/Paystack.antt =====
-- packages/api/src/services/paystackService.ts. What the HTTP calls bring back is an argument; the
-- functions read it as the source does. Amounts are in Naira here and in kobo on the wire.
use jhaz_imprints.Common.{
  String, ◌≡◌, refl, ◌⊎◌, inl, inr, Bool, false, Option, none, some, Result, ok, err, error, ◌==◌,
  if◌then◌else◌,
}
use Prim.Native.String
use jhaz_imprints.Numbers.{Arith}

pub data PaystackStatus : Type 0 where
  success failed abandoned : PaystackStatus

-- The answer to a call of `fetch`: it throws, or has a bad HTTP status and an error message, or
-- carries the parsed body.
pub data Reply (B : Type 0) : Type 0 where
  unreachable : (message : String) → Reply B
  not_ok : (message : String) → Reply B
  body : B → Reply B

pub record InitializeBody : Type 0 where
  pub status : Bool
  pub message : String
  pub authorization_url : String
  pub access_code : String
  pub reference : String

pub record VerifyBody (F : Type 0) : Type 0 where
  pub status : Bool
  pub message : String
  pub data_status : PaystackStatus
  pub amount : F
  pub paid_at : String
  pub email : String

-- The body of the request to `/transaction/initialize`; `amount` is in kobo.
pub record InitializeRequest (F : Type 0) : Type 0 where
  pub email : String
  pub amount : F
  pub reference : String
  pub order_id : String
  pub user_id : String

pub record Initialized : Type 0 where
  pub authorization_url : String
  pub access_code : String
  pub reference : String

pub record Verification (F : Type 0) : Type 0 where
  pub status : PaystackStatus
  pub amount : F
  pub paid_at : String
  pub email : String

module _ {F : Type 0} (num : Arith F) where
  unfoldable pub initialize_payment :
      (InitializeRequest F → Reply InitializeBody)
      → (email : String) (amount : F) (reference order_id user_id : String) → Result Initialized
  initialize_payment fetch email amount reference order_id user_id =
      let sent : InitializeRequest F = record {
        email = email;
        amount = num.mul amount (num.of_nat 100);
        reference = reference;
        order_id = order_id;
        user_id = user_id;
      } in
      elim (fetch sent) [
        | unreachable m ↦ err (error m)
        | not_ok m ↦ err (error (String.◌++◌ "Paystack API error: " m))
        | body b ↦
            if b.status
            then ok (record {
              authorization_url = b.authorization_url;
              access_code = b.access_code;
              reference = b.reference;
            })
            else err (error (String.◌++◌ "Paystack initialization failed: " b.message))
      ]

  unfoldable pub verify_payment : (String → Reply (VerifyBody F)) → String → Result (Verification F)
  verify_payment fetch reference = elim (fetch reference) [
    | unreachable m ↦ err (error m)
    | not_ok m ↦ err (error (String.◌++◌ "Paystack API error: " m))
    | body b ↦
        if b.status
        then ok (record {
          status = b.data_status;
          amount = num.div b.amount (num.of_nat 100);
          paid_at = b.paid_at;
          email = b.email;
        })
        else err (error (String.◌++◌ "Paystack verification failed: " b.message))
  ]

-- The two buffers are compared only at equal length. `hmac` is SHA-512 keyed with the secret.
unfoldable pub verify_webhook_signature :
    (hmac : String → String → String)
    → (secret : Option String) → (payload : String) (signature : Option String) → Bool
verify_webhook_signature hmac none payload signature = false
verify_webhook_signature hmac (some secret) payload none = false
verify_webhook_signature hmac (some secret) payload (some signature) =
    if secret == ""
    then false
    else if signature == ""
    then false
    else hmac secret payload == signature

-- Either there is a body, or the verification throws.
pub Reply-cases :
    {B : Type 0} (r : Reply B)
    → (((m : String) × (r ≡ unreachable m)) ⊎ ((m : String) × (r ≡ not_ok m)))
      ⊎ ((b : B) × (r ≡ body b))
Reply-cases (unreachable m) = inl (inl (m, refl))
Reply-cases (not_ok m) = inl (inr (m, refl))
Reply-cases (body b) = inr (b, refl)
