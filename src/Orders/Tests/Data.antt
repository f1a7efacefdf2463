-- ===== src/Orders/Tests/Data.antt =====
-- A customer with one pending order of 4500 Naira, and the catalog that it was made from. Numbers
-- are thousandths.
use jhaz_imprints.Common.{ℕ, String, true, none, some, [], ◌∷◌, ◌==◌, if◌then◌else◌}
use jhaz_imprints.Schema.{
  customer, OrderStatus, PaymentStatus, User, OrderMeasurement, OrderItem, Order, Payment, Db,
  OrderStatus,
}
use jhaz_imprints.Paystack.{Reply, body, success, VerifyBody, InitializeRequest, InitializeBody}
use jhaz_imprints.Catalog.{Catalog, Product, StyleOption, Fabric, FabricProperty}
use jhaz_imprints.Orders.Item.{ItemInput}
use jhaz_imprints.Orders.Create.{CreateOrderInput}

abbrev pub ann : User
ann = record {
  id = "u1";
  email = "ann@shop";
  phone = none;
  first_name = some "Ann";
  last_name = none;
  password = "hash";
  role = customer;
  refresh_token = none;
  failed_login_attempts = 0;
  locked_until = none;
  reset_password_token = none;
  reset_password_expires = none;
  last_login_at = none;
  last_login_ip = none;
  admin_otp_hash = none;
  admin_otp_expires = none;
}

abbrev pub unmeasured : OrderMeasurement ℕ
unmeasured = record {
  chest = none;
  waist = none;
  hip = none;
  shoulder = none;
  arm_length = none;
  length = none;
  notes = none;
}

abbrev pub product_id : String
product_id = "507f1f77bcf86cd799439011"

abbrev pub fabric_id : String
fabric_id = "507f1f77bcf86cd7994390aa"

abbrev pub royal : StyleOption ℕ
royal = record { name = "Royal"; price_modifier = some 500000; img_url = some "https://i/royal" }

abbrev pub agbada : Product ℕ
agbada = record {
  name = "Agbada";
  is_active = true;
  base_price = 3000000;
  default_style = none;
  style_options = royal ∷ [];
}

abbrev pub red : FabricProperty ℕ
red = record {
  color_name = "Red";
  image_url = some "https://i/red";
  unit = none;
  yards_per_unit = some 1000;
  price_modifier = some 500000;
}

abbrev pub lace : Fabric ℕ
lace = record { name = "Lace"; properties = red ∷ [] }

abbrev pub catalog : Catalog ℕ
catalog = record {
  product = λ id. if id == product_id then some agbada else none;
  fabric = λ id. if id == fabric_id then some lace else none;
}

abbrev pub item : ItemInput ℕ
item = record {
  product_id = product_id;
  measurement = unmeasured;
  fabric_id = some "507f1f77bcf86cd7994390aa::red";
  style_option_name = some " royal ";
  notes = none;
}

abbrev pub input : CreateOrderInput ℕ
input = record {
  items = item ∷ [];
  promo_code = none;
  expected_total = some 4500000;
  delivery = none;
}

-- The row that the item becomes: 3000 + 2 × 500 + 500 Naira.
abbrev pub row : OrderItem ℕ
row = record {
  product_id = product_id;
  product_name = "Agbada";
  measurement = unmeasured;
  fabric_id = some fabric_id;
  fabric_option_name = "Lace — Red";
  style_option_name = "Royal";
  color_name = some "Red";
  fabric_img_url = some "https://i/red";
  style_img_url = some "https://i/royal";
  img_url = some "https://i/royal";
  base_price = 3000000;
  style_modifier = 500000;
  fabric_price_per_unit = 500000;
  fabric_qty = 2000;
  fabric_unit = "yard";
  fabric_yards = 2000;
  yards_per_unit = 1000;
  fabric_modifier = 1000000;
  total_amount = 4500000;
  notes = none;
}

abbrev pub order : Order ℕ
order = record {
  id = "o1";
  user_id = "u1";
  tailor_id = none;
  items = row ∷ [];
  status = OrderStatus.pending;
  total_amount = 4500000;
  notes = none;
}

abbrev pub payment : Payment ℕ
payment = record {
  order_id = "o1";
  amount = 4500000;
  status = PaymentStatus.pending;
  reference = "r1";
  provider = "PAYSTACK";
}

abbrev pub db : Db ℕ
db = record {
  users = ann ∷ [];
  measurements = [];
  orders = order ∷ [];
  payments = payment ∷ [];
  history = [];
  jobs = [];
}

abbrev pub empty_db : Db ℕ
empty_db = record db { orders = []; payments = [] }

-- Paystack has taken 4500 Naira, in kobo.
abbrev pub paid : VerifyBody ℕ
paid = record {
  status = true;
  message = "ok";
  data_status = success;
  amount = 450000000;
  paid_at = "today";
  email = "ann@shop";
}

abbrev pub fetch_paid : String → Reply (VerifyBody ℕ)
fetch_paid reference = body paid

abbrev pub link : InitializeBody
link = record {
  status = true;
  message = "ok";
  authorization_url = "https://pay";
  access_code = "code";
  reference = "r";
}

abbrev pub fetch_link : InitializeRequest ℕ → Reply InitializeBody
fetch_link request = body link
