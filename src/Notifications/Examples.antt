-- ===== src/Notifications/Examples.antt =====
-- Runs of the worker on a small database.
use memberclass_backend_gola.Notifications.Cleanup.{
  EndsWell, prune_old_notifications, prune_old_notifications-EndsWell,
}
use memberclass_backend_gola.Notifications.Ticks.{tick_closes}
use memberclass_backend_gola.Notifications.Closing.{IsClosed}
use memberclass_backend_gola.Notifications.Delivery.{IsFcm, Delivers, send_multicast-Delivers}
use memberclass_backend_gola.Notifications.Preferences.{
  Allowed, resolve_recipients-Allowed, OneMembership,
}
use memberclass_backend_gola.Notifications.Render.{render_for_push}
use memberclass_backend_gola.Notifications.Rows.{Row}
use memberclass_backend_gola.Notifications.Worker.{
  send_multicast, Remote, answer, accepted, tick, claim_rows,
}
use memberclass_backend_gola.Notifications.{Database, Notification, pending}
use memberclass_backend_gola.Notifications.Recipients.{resolve_recipients, memberships_of}
use memberclass_backend_gola.Common.{
  ◌≡◌, refl, inl, inr, ◌&&◌, Option, none, some, List, [], ◌∷◌, ◌++◌, map, arith, Bool-cases,
  length, drop, All, GoString, str, ◌===◌, text_leb, has_text, false,
}

-- An FCM that accepts every token and keeps what it receives.
abbrev mailbox : Remote
mailbox = record {
  State = List (List GoString);
  Client = Unit {0};
  messaging = λ name s. (answer tt, s);
  query_error = λ q. none;
  send_each = λ c title body tokens s. (
    answer (record {
      success_count = length tokens;
      failure_count = 0;
      responses = map (λ t. accepted) tokens;
    }),
    s ++ tokens ∷ [],
  );
}

mailbox-IsFcm : IsFcm mailbox (λ s. s)
mailbox-IsFcm = record { send_answered = λ c title body tokens s. (_, _, refl, refl, omega arith) }

abbrev note : Notification
note = record {
  id = str "n";
  tenant_id = str "t";
  kind = str "ADMIN_BROADCAST";
  fanout = str "READ";
  status = pending;
  title = some (str "Hi");
  body = some (str "There");
  message_key = none;
  message_data = [];
  audience_type = some (str "tenant");
  audience_id = none;
  recipient_count = none;
  sent_count = 0;
  failed_count = 0;
  last_batch_index = none;
  scheduled_at = none;
  created_at = 5;
  updated_at = 5;
  sent_at = none;
  failure_reason = none;
}

abbrev db : Database
db = record {
  notifications = note ∷ [];
  devices =
      record { id = str "2"; user_id = some (str "u"); tenant_id = str "t"; token = str "B" }
      ∷ record { id = str "1"; user_id = none; tenant_id = str "t"; token = str "A" }
      ∷ record { id = str "3"; user_id = some (str "v"); tenant_id = str "t"; token = str "C" }
      ∷ [];
  memberships =
      record {
        user_id = str "v";
        tenant_id = str "t";
        push_disabled_types = str "ADMIN_BROADCAST" ∷ [];
      }
      ∷ [];
  user_notifications = [];
  members = [];
  instances = (str "t", none) ∷ [];
}

abbrev no_data : GoString → Option (List (GoString × GoString))
no_data s = some []

one : OneMembership db
unfolding memberships_of
one user_id tenant_id = elim (Bool-cases ((str "v" === user_id) && (str "t" === tenant_id))) [
  | inl h ↦ rw h (omega arith)
  | inr h ↦ rw h (omega arith)
]

tells_two : map (λ r. r.token) (resolve_recipients db note) ≡ str "A" ∷ str "B" ∷ []
unfolding resolve_recipients ◌===◌ text_leb has_text
tells_two = refl

fills_in :
    (render_for_push
      (λ s. some ((str "actorName", str "Ana") ∷ []))
      (record note {
        title = none;
        message_key = some (str "notifications.postComment");
        message_data = str "{}";
      })).1
    ≡ str "Ana comentou no seu post da comunidade."
unfolding render_for_push ◌===◌
fills_in = refl

resolve_recipients-Allowed_example :
    All
      (Allowed db (str "ADMIN_BROADCAST") (λ d. d.tenant_id ≡ str "t"))
      (resolve_recipients db note)
resolve_recipients-Allowed_example =
    resolve_recipients-Allowed db note (λ d. d.tenant_id ≡ str "t") one (refl, (refl, (refl, tt)))

send_multicast-Delivers_example :
    (calls : List (List GoString)) × ((send_multicast mailbox tt note
        (str "Hi")
        (str "There")
        9
        db
        []).1.1
      ≡ [] ++ calls)
    × Delivers calls (drop 0 (resolve_recipients db note))
send_multicast-Delivers_example =
    send_multicast-Delivers mailbox mailbox-IsFcm tt note (str "Hi") (str "There") 9 db [] refl

tick_closes_example :
    All (λ n. Row IsClosed n.id (tick mailbox no_data 9 (db, [])).0) (claim_rows mailbox 9 db).0
tick_closes_example = tick_closes mailbox no_data 9 db [] (λ id. refl)

prune_old_notifications-EndsWell_example :
    EndsWell (λ n. 5) 0 0 (3 ∷ 9 ∷ []) (prune_old_notifications (λ n. 5) (λ n. false) (3 ∷ 9 ∷ []))
prune_old_notifications-EndsWell_example =
    prune_old_notifications-EndsWell (λ n. 5) (λ n. false) (3 ∷ 9 ∷ [])
