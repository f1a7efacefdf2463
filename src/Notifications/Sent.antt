-- ===== src/Notifications/Sent.antt =====
-- Which emails a job of notificationWorker.ts hands on.
use mathlib.Core.List.{append-nil}
use jhaz_imprints.Common.{
  ℕ, String, ◌≡◌, refl, sym, ◌∙◌, ap, Option, none, some, List, [], ◌∷◌, ◌++◌, Result, ok, err,
  Failure, arith, or_default, Result-cases, Option-cases, inl, inr,
}
use jhaz_imprints.Numbers.{Arith}
use jhaz_imprints.Orders.Notes.{non_empty}
use jhaz_imprints.Notifications.{
  SentMail, EmailTemplate, Transporter, Channel, resend, smtp, Outbox, Settings, Providers,
  OrderConfirmed, order_confirmed, Templates, credentials, get_transporter, send_email, try_send,
  confirmed_data, handle_order_confirmed, process_job,
}

abbrev channel_from : Option String → Option Transporter → Option Transporter → Option Channel
channel_from (some key) in_use named = some (resend key)
channel_from none (some t) named = some (smtp t)
channel_from none none (some t) = some (smtp t)
channel_from none none none = none

-- Resend if it has a key; else the account that is in use, or that the environment names.
abbrev pub channel_of : Settings → Option Transporter → Option Channel
channel_of env in_use = channel_from (non_empty env.resend_api_key) in_use (credentials env)

abbrev sender_of : Channel → String
sender_of (resend key) = "onboarding@resend.dev"
sender_of (smtp t) = "orders@jhazimprints.shop"

-- The one email to this address, where there are an address, a text and a channel.
abbrev pub posted :
    Settings → Option Channel → Option String → Result EmailTemplate → List (Channel × SentMail)
posted env (some channel) (some to) (ok t) =
    (
      channel,
      record {
        from = or_default (non_empty env.email_from) (sender_of channel);
        to = to;
        subject = t.subject;
        html = t.html;
      },
    )
    ∷ []
posted env _ _ _ = []

module _ (env : Settings) (out : Providers) where
  posted_nowhere :
      (c : Option Channel) (template : Result EmailTemplate) → posted env c none template ≡ []
  posted_nowhere none template = refl
  posted_nowhere (some c) template = refl

  posted_nothing :
      (c : Option Channel) (to : Option String) (e : Failure) → posted env c to (err e) ≡ []
  posted_nothing none to e = refl
  posted_nothing (some c) none e = refl
  posted_nothing (some c) (some to) e = refl

  send_email-posted :
      (to : String) (t : EmailTemplate) (s : Outbox)
      → let after = (send_email env out to t s).1 in
        (after.sent ≡ s.sent ++ posted env (channel_of env s.smtp_transporter) (some to) (ok t))
        × (channel_of env after.smtp_transporter ≡ channel_of env s.smtp_transporter)
  unfolding send_email get_transporter
  send_email-posted to t s = elim (Option-cases (non_empty env.resend_api_key)) [
    | inr (key, has_key) ↦ rw has_key (refl, refl)
    | inl no_key ↦ elim (Option-cases s.smtp_transporter) [
      | inr (used, in_use) ↦ rw (no_key, in_use) (refl, ground (arith, no_key, in_use))
      | inl unused ↦ elim (Option-cases (credentials env)) [
        | inr (named, has_account) ↦
            rw (no_key, unused, has_account) (refl, ground (arith, no_key, unused, has_account))
        | inl bare ↦
            rw (no_key, unused, bare)
              (sym (append-nil s.sent), ground (arith, no_key, unused, bare))
      ]
    ]
  ]

  try_send-posted :
      (to : Option String) (template : Result EmailTemplate) (s : Outbox)
      → let r = try_send env out to template s in
        (r.0 ≡ ok tt)
        × (r.1.sent ≡ s.sent ++ posted env (channel_of env s.smtp_transporter) to template)
        × (channel_of env r.1.smtp_transporter ≡ channel_of env s.smtp_transporter)
  unfolding try_send
  try_send-posted none template s = (
    refl,
    sym (append-nil s.sent)
        ∙ ap (λ ms. s.sent ++ ms)
            (sym (posted_nowhere (channel_of env s.smtp_transporter) template)),
    refl,
  )
  try_send-posted (some to) (err e) s = (
    refl,
    sym (append-nil s.sent)
        ∙ ap (λ ms. s.sent ++ ms)
            (sym (posted_nothing (channel_of env s.smtp_transporter) (some to) e)),
    refl,
  )
  try_send-posted (some to) (ok t) s =
      let (sent, same) = send_email-posted to t s in
      elim (Result-cases (send_email env out to t s).0) [
        | inl (_, done) ↦ rw done (refl, sent, same)
        | inr (e, failed) ↦ rw failed (refl, sent, same)
      ]

-- A confirmed order's job does not fail, whatever the providers answer and the templates do. It hands
-- on the customer's email and then the admin's, each just when there is an address for it and its template
-- returns, by the one channel that is set up, if there is one; nothing else is handed on.
pub handle_order_confirmed_posts :
    {F : Type 0} (env : Settings) (out : Providers) (num : Arith F) (templates : Templates F)
    (date : String → Option ℕ) (now : ℕ) (d : OrderConfirmed F) (s : Outbox)
    → let r = process_job env out num templates date now (order_confirmed d) s in
      let data' = confirmed_data num date now d in
      let channel = channel_of env s.smtp_transporter in
      (r.0 ≡ ok tt)
      × (r.1.sent
          ≡ (s.sent
              ++ posted env channel
                  (non_empty d.user_email)
                  (templates.order_confirmed_email data'))
            ++ posted env channel
                (non_empty env.admin_email)
                (templates.admin_order_alert_email data'))
unfolding process_job handle_order_confirmed
handle_order_confirmed_posts env out num templates date now d s =
    let data' = confirmed_data num date now d in
    let to_customer =
      try_send env out (non_empty d.user_email) (templates.order_confirmed_email data') in
    let (went, sent, same) =
      try_send-posted env out (non_empty d.user_email) (templates.order_confirmed_email data') s in
    let (went_on, sent_on, _) =
      try_send-posted env out (non_empty env.admin_email) (templates.admin_order_alert_email data')
        (to_customer s).1 in
    rw (went, went_on, sent_on, sent, same) (refl, refl)
