-- ===== src/Schema.antt =====
-- packages/db/prisma/schema.prisma: the rows of the Postgres tables, and the whole stored state.
-- Columns that no code reads back (row ids of the history, timestamps, the currency) are left out.
-- Times are milliseconds since the epoch, as `Date.now()` gives them.
use jhaz_imprints.Common.{ℕ, String, Bool, Option, List}

pub data Role : Type 0 where
  customer admin tailor : Role

pub data OrderStatus : Type 0 where
  pending confirmed in_production ready dispatched delivered cancelled : OrderStatus

pub data PaymentStatus : Type 0 where
  pending completed failed refunded : PaymentStatus

pub record User : Type 0 where
  pub id : String
  pub email : String
  pub phone : Option String
  pub first_name : Option String
  pub last_name : Option String
  pub password : String
  pub role : Role
  pub refresh_token : Option String
  pub failed_login_attempts : ℕ
  pub locked_until : Option ℕ
  pub reset_password_token : Option String
  pub reset_password_expires : Option ℕ
  pub last_login_at : Option ℕ
  pub last_login_ip : Option String
  pub admin_otp_hash : Option String
  pub admin_otp_expires : Option ℕ

-- The body measurements that travel with an order item.
pub record OrderMeasurement (F : Type 0) : Type 0 where
  pub chest : Option F
  pub waist : Option F
  pub hip : Option F
  pub shoulder : Option F
  pub arm_length : Option F
  pub length : Option F
  pub notes : Option String

pub record Measurement (F : Type 0) : Type 0 where
  pub id : String
  pub user_id : String
  pub profile_name : String
  pub is_default : Bool
  pub body : OrderMeasurement F

-- One element of the `items` column of an order.
pub record OrderItem (F : Type 0) : Type 0 where
  pub product_id : String
  pub product_name : String
  pub measurement : OrderMeasurement F
  pub fabric_id : Option String
  pub fabric_option_name : String
  pub style_option_name : String
  pub color_name : Option String
  pub fabric_img_url : Option String
  pub style_img_url : Option String
  pub img_url : Option String
  pub base_price : F
  pub style_modifier : F
  pub fabric_price_per_unit : F
  pub fabric_qty : F
  pub fabric_unit : String
  pub fabric_yards : F
  pub yards_per_unit : F
  pub fabric_modifier : F
  pub total_amount : F
  pub notes : Option String

pub data DeliveryMethod : Type 0 where
  standard express : DeliveryMethod

pub record Delivery : Type 0 where
  pub full_name : String
  pub phone_number : String
  pub address : String
  pub city : String
  pub state : String
  pub country : String
  pub delivery_method : DeliveryMethod

-- The `notes` column: the JSON text of delivery and promo code that `createOrder` writes, or the
-- plain text of an old order, which is no JSON object.
pub data Notes : Type 0 where
  metadata : (delivery : Option Delivery) (promo_code : Option String) → Notes
  plain : String → Notes

pub record Order (F : Type 0) : Type 0 where
  pub id : String
  pub user_id : String
  pub tailor_id : Option String
  pub items : List (OrderItem F)
  pub status : OrderStatus
  pub total_amount : F
  pub notes : Option Notes

pub record Payment (F : Type 0) : Type 0 where
  pub order_id : String
  pub amount : F
  pub status : PaymentStatus
  pub reference : String
  pub provider : String

pub record StatusEntry : Type 0 where
  pub order_id : String
  pub status : OrderStatus
  pub note : Option String

-- The payload of the `order-confirmed` job.
pub record Job (F : Type 0) : Type 0 where
  pub order_id : String
  pub user_id : String
  pub user_email : String
  pub user_phone : Option String
  pub user_name : Option String
  pub total_price : F
  pub measurement : Option (OrderMeasurement F)
  pub product_name : String
  pub fabric_option : String
  pub color_option : String
  pub style_option : String

-- The tables of Postgres, and the notification queue of Redis.
pub record Db (F : Type 0) : Type 0 where
  pub users : List User
  pub measurements : List (Measurement F)
  pub orders : List (Order F)
  pub payments : List (Payment F)
  pub history : List StatusEntry
  pub jobs : List (Job F)

abbrev pub is_admin : Role → Bool
is_admin admin = Bool.true
is_admin _ = Bool.false

abbrev pub is_tailor : Role → Bool
is_tailor tailor = Bool.true
is_tailor _ = Bool.false

abbrev pub is_pending : OrderStatus → Bool
is_pending OrderStatus.pending = Bool.true
is_pending _ = Bool.false

abbrev pub is_confirmed : OrderStatus → Bool
is_confirmed confirmed = Bool.true
is_confirmed _ = Bool.false

abbrev pub is_cancelled : OrderStatus → Bool
is_cancelled cancelled = Bool.true
is_cancelled _ = Bool.false

abbrev pub is_completed : PaymentStatus → Bool
is_completed completed = Bool.true
is_completed _ = Bool.false
