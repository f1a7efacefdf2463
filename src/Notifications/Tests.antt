-- ===== src/Notifications/Tests.antt =====
-- Jobs of notificationWorker.ts at concrete data.
use jhaz_imprints.Common.{ℕ, String, ◌≡◌, refl, Option, none, some, [], ◌++◌, ok, err, error}
use jhaz_imprints.Numbers.{milli}
use jhaz_imprints.Notifications.{
  Transporter, unreachable, Outbox, Settings, Providers, OrderConfirmed, order_confirmed, unknown,
  Templates, drop_spaces, drop_last_quote, credentials, get_transporter, send_email, try_send,
  confirmed_data, handle_order_confirmed, process_job,
}
use jhaz_imprints.Notifications.Sent.{channel_of, posted, handle_order_confirmed_posts}

-- The password as Google shows it, in quotes.
abbrev gmail : Settings
gmail = record {
  admin_email = some "tailor@shop";
  resend_api_key = none;
  email_from = none;
  email_user = some "shop@gmail";
  email_password = some "\"ab cd ef\"";
}

abbrev gmail_account : Transporter
gmail_account = record { user = "shop@gmail"; pass = "abcdef" }

account_read : credentials gmail ≡ some gmail_account
unfolding credentials drop_spaces drop_last_quote
account_read = refl

-- Nothing is delivered.
abbrev down : Providers
down = record {
  resend = λ sent mail. unreachable "no network";
  smtp = λ sent mail. some "no network";
}

abbrev plain : Templates ℕ
plain = record {
  order_confirmed_email = λ d. ok (record { subject = "Confirmed"; html = d.product_name });
  status_update_email = λ d status. ok (record { subject = status; html = d.product_name });
  admin_order_alert_email = λ d. ok (record { subject = "New order"; html = d.product_name });
}

abbrev confirmed : OrderConfirmed ℕ
confirmed = record {
  order_id = "o1";
  user_id = "u1";
  user_email = some "ada@mail";
  user_name = none;
  product_name = some "Agbada";
  delivery_date = none;
  measurement = none;
  total_price = none;
  fabric_option = none;
  color_option = none;
  style_option = none;
}

abbrev idle : Outbox
idle = record { sent = []; smtp_transporter = none }

abbrev undated : String → Option ℕ
undated text = none

both_tried :
    (process_job gmail down milli plain undated 0 (order_confirmed confirmed) idle).0 ≡ ok tt
unfolding process_job handle_order_confirmed try_send send_email get_transporter credentials
    drop_spaces drop_last_quote confirmed_data
both_tried = refl

unknown_fails :
    (process_job gmail down milli plain undated 0 (unknown "sms") idle).0
    ≡ err (error "Unknown job type: sms")
unfolding process_job
unknown_fails = refl

handle_order_confirmed_posts_example :
    let r = process_job gmail down milli plain undated 0 (order_confirmed confirmed) idle in
    let data' = confirmed_data milli undated 0 confirmed in
    let channel = channel_of gmail none in
    (r.0 ≡ ok tt)
    × (r.1.sent
        ≡ ([] ++ posted gmail channel (some "ada@mail") (plain.order_confirmed_email data'))
          ++ posted gmail channel (some "tailor@shop") (plain.admin_order_alert_email data'))
handle_order_confirmed_posts_example =
    handle_order_confirmed_posts gmail down milli plain undated 0 confirmed idle
