-- ===== src/Notifications.antt =====
-- queues/notificationWorker.ts of packages/api: the jobs that send emails.
pub mod Sent
mod Tests
use Prim.Native.Char.{code}
use Prim.Native.String.{[], ◌∷◌}
use Prim.Native.String
use jhaz_imprints.Common.{
  ℕ, ◌+◌, String, Bool, true, false, ◌||◌, Option, none, some, List, ◌∷◌ as ◌∷ᴸ◌, ◌++◌, ◌==◌,
  if◌then◌else◌, eqb, or_default, Result, ok, err, Failure, error, Exec, pure, throw, lift, attempt,
  modify, ◌>>=◌, ◌>>◌,
}
use jhaz_imprints.Common.Text.{is_space}
use jhaz_imprints.Numbers.{Arith}
use jhaz_imprints.Orders.Notes.{non_empty}

pub record SentMail : Type 0 where
  pub from : String
  pub to : String
  pub subject : String
  pub html : String

pub record EmailTemplate : Type 0 where
  pub subject : String
  pub html : String

-- The account that the transporter of SMTP logs in with.
pub record Transporter : Type 0 where
  pub user : String
  pub pass : String

-- How an email is handed on: to Resend with a key, or to the transporter.
pub data Channel : Type 0 where
  resend : String → Channel
  smtp : Transporter → Channel

-- What Resend answers. Its text is JSON, or it is not.
pub data ResendReply : Type 0 where
  unreachable : String → ResendReply
  not_ok : (status : String) (body : String) → ResendReply
  delivered : (is_json : Bool) → ResendReply

-- The emails that were handed on, in order, and `smtpTransporter`.
pub record Outbox : Type 0 where
  pub sent : List (Channel × SentMail)
  pub smtp_transporter : Option Transporter

-- The environment's variables.
pub record Settings : Type 0 where
  pub admin_email : Option String
  pub resend_api_key : Option String
  pub email_from : Option String
  pub email_user : Option String
  pub email_password : Option String

-- The two ways out: each answer may depend on what was sent before.
pub record Providers : Type 0 where
  pub resend : List (Channel × SentMail) → SentMail → ResendReply
  -- nodemailer's error, where there is one
  pub smtp : List (Channel × SentMail) → SentMail → Option String

-- The order as the templates see it; the date is in milliseconds, none if it is invalid.
pub record OrderData (F : Type 0) : Type 0 where
  pub id : String
  pub product_name : String
  pub delivery_date : Option ℕ
  pub measurement : Option (List (String × F))
  pub total_price : F
  pub fabric_option : Option String
  pub color_option : Option String
  pub style_option : Option String
  pub customer_name : Option String
  pub customer_email : Option String

pub record OrderConfirmed (F : Type 0) : Type 0 where
  pub order_id : String
  pub user_id : String
  pub user_email : Option String
  pub user_name : Option String
  pub product_name : Option String
  pub delivery_date : Option String
  pub measurement : Option (List (String × F))
  pub total_price : Option F
  pub fabric_option : Option String
  pub color_option : Option String
  pub style_option : Option String

pub record StatusUpdated (F : Type 0) : Type 0 where
  pub order_id : String
  pub user_id : String
  pub user_email : Option String
  pub product_name : Option String
  pub delivery_date : Option String
  pub new_status : String
  pub note : Option String
  pub total_price : Option F

pub data NotificationJob (F : Type 0) : Type 0 where
  order_confirmed : OrderConfirmed F → NotificationJob F
  status_updated : StatusUpdated F → NotificationJob F
  unknown : (name : String) → NotificationJob F

-- The templates; one may throw.
pub record Templates (F : Type 0) : Type 0 where
  pub order_confirmed_email : OrderData F → Result EmailTemplate
  pub status_update_email : OrderData F → String → Result EmailTemplate
  pub admin_order_alert_email : OrderData F → Result EmailTemplate

-- `s.replace(/\s+/g, "")` and `s.replace(/^["']|["']$/g, "")`
unfoldable pub drop_spaces : String → String
drop_spaces [] = []
drop_spaces (c ∷ s) = let rest = drop_spaces s in if is_space (code c) then rest else c ∷ rest

abbrev is_quote : ℕ → Bool
is_quote n = eqb n 34 || eqb n 39

unfoldable pub drop_last_quote : String → String
drop_last_quote [] = []
drop_last_quote (c ∷ s) =
    let rest = drop_last_quote s in
    if s == "" then (if is_quote (code c) then "" else c ∷ s) else c ∷ rest

abbrev drop_first_quote : String → String
drop_first_quote [] = []
drop_first_quote (c ∷ s) = if is_quote (code c) then s else c ∷ s

abbrev clean : Option String → Option String
unfolding drop_spaces drop_last_quote
clean none = none
clean (some value) = some (drop_last_quote (drop_first_quote (drop_spaces value)))

abbrev account : Option String → Option String → Option Transporter
account (some user) (some pass) = some (record { user = user; pass = pass })
account _ _ = none

-- The account of the environment, where both its parts are there.
unfoldable pub credentials : Settings → Option Transporter
unfolding clean
credentials env =
    account (non_empty (clean (non_empty env.email_user)))
      (non_empty (clean (non_empty env.email_password)))

-- The transporter that is in use, or else one with this account.
abbrev or_create : Option Transporter → Option Transporter → Exec Outbox Transporter
or_create (some t) named s = (ok t, s)
or_create none (some t) s = (ok t, record s { smtp_transporter = some t })
or_create none none s = (
  err (error "SMTP credentials missing or incomplete (EMAIL_USER or EMAIL_PASSWORD not set)."),
  s,
)

unfoldable pub get_transporter : Settings → Exec Outbox Transporter
get_transporter env s = or_create s.smtp_transporter (credentials env) s

abbrev read_reply : ResendReply → Result {0} Unit
read_reply (unreachable message) = err (error message)
read_reply (not_ok status body) =
    err (
      error
        (String.◌++◌ "Resend API returned status " (String.◌++◌ status (String.◌++◌ ": " body))))
read_reply (delivered true) = ok tt
read_reply (delivered false) = err (error "invalid JSON")

abbrev read_failure : Option String → Result {0} Unit
read_failure none = ok tt
read_failure (some message) = err (error message)

abbrev mail_from : Option String → String → String → EmailTemplate → SentMail
mail_from from default to t = record {
  from = or_default (non_empty from) default;
  to = to;
  subject = t.subject;
  html = t.html;
}

abbrev pub record_sent : Channel → SentMail → Outbox → Outbox
record_sent channel mail s = record s { sent = s.sent ++ ((channel, mail) ∷ᴸ List.[]) }

module _ {F : Type 0} (num : Arith F) (date : String → Option ℕ) (now : ℕ) where
  -- Without a date, it is two weeks from now.
  abbrev date_or_default : Option String → Option ℕ
  date_or_default none = some (now + 1209600000)
  date_or_default (some text) = date text

  unfoldable pub confirmed_data : OrderConfirmed F → OrderData F
  confirmed_data d = record {
    id = d.order_id;
    product_name = or_default (non_empty d.product_name) "Custom Outfit";
    delivery_date = date_or_default (non_empty d.delivery_date);
    measurement = d.measurement;
    total_price = or_default d.total_price (num.of_nat 0);
    fabric_option = d.fabric_option;
    color_option = d.color_option;
    style_option = d.style_option;
    customer_name = some (or_default (non_empty d.user_name) "Customer");
    customer_email = d.user_email;
  }

  unfoldable pub updated_data : StatusUpdated F → OrderData F
  updated_data d = record {
    id = d.order_id;
    product_name = or_default (non_empty d.product_name) "Custom Outfit";
    delivery_date = date_or_default (non_empty d.delivery_date);
    measurement = none;
    total_price = or_default d.total_price (num.of_nat 0);
    fabric_option = none;
    color_option = none;
    style_option = none;
    customer_name = none;
    customer_email = none;
  }

module _ (env : Settings) (out : Providers) where
  abbrev by_resend : String → SentMail → Exec Outbox Unit
  by_resend key mail s = (read_reply (out.resend s.sent mail), record_sent (resend key) mail s)

  abbrev by_smtp : SentMail → Transporter → Exec Outbox Unit
  by_smtp mail t s = (read_failure (out.smtp s.sent mail), record_sent (smtp t) mail s)

  abbrev pub send_by : Option String → String → EmailTemplate → Exec Outbox Unit
  send_by (some key) to t = by_resend key (mail_from env.email_from "onboarding@resend.dev" to t)
  send_by none to t =
      get_transporter env >>= by_smtp (mail_from env.email_from "orders@jhazimprints.shop" to t)

  unfoldable pub send_email : String → EmailTemplate → Exec Outbox Unit
  send_email to t = send_by (non_empty env.resend_api_key) to t

  -- One email, if there is an address; whatever goes wrong is logged.
  unfoldable pub try_send : Option String → Result EmailTemplate → Exec Outbox Unit
  try_send none template = pure tt
  try_send (some to) template = attempt (lift template >>= send_email to) (λ e. pure tt)

  module _ {F : Type 0} (num : Arith F) (templates : Templates F) (date : String → Option ℕ)
      (now : ℕ) where
    unfoldable pub handle_order_confirmed : OrderConfirmed F → Exec Outbox Unit
    handle_order_confirmed d = do
      try_send (non_empty d.user_email)
          (templates.order_confirmed_email (confirmed_data num date now d))
      try_send (non_empty env.admin_email)
          (templates.admin_order_alert_email (confirmed_data num date now d))

    unfoldable pub handle_status_updated : StatusUpdated F → Exec Outbox Unit
    handle_status_updated d =
        try_send (non_empty d.user_email)
          (templates.status_update_email (updated_data num date now d) d.new_status)

    -- The worker's processor: an unknown job throws, which BullMQ takes for a failure.
    unfoldable pub process_job : NotificationJob F → Exec Outbox Unit
    process_job (order_confirmed d) = handle_order_confirmed d
    process_job (status_updated d) = handle_status_updated d
    process_job (unknown name) = throw (error (String.◌++◌ "Unknown job type: " name))
