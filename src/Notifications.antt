-- ===== src/Notifications.antt =====
-- The push notifications worker: internal/features/workers/notifications. This file has the tables of
-- types.go and the statements of repo.go and cleanup.go; a statement is a function on the database,
-- with NOW() as an argument, in seconds. Errors of the connection are left out.
pub mod Recipients
pub mod Render
pub mod Worker
mod Examples
pub mod Delivery
pub mod Rows
pub mod Cleanup
pub mod Closing
pub mod Ticks
pub mod Preferences
use memberclass_backend_gola.Common.{
  ℕ, zero, suc, ◌+◌, ◌-◌, ◌*◌, ◌/◌, ◌%◌, ◌^◌, ◌≤◌, ◌<◌, min, String, ◌≡◌, refl, sym, ap, ◌∙◌,
  ◌≡⟨◌⟩◌, ◌∎, ◌≢◌, ◌↔◌, ◌⊎◌, inl, inr, Bool, true, false, not, ◌&&◌, ◌||◌, Option, none, some, List,
  [], ◌∷◌, ◌++◌, map, append-nil, append_assoc, arith, ltb, leb, ◌==◌, if◌then◌else◌, Bool-cases,
  Option-cases, is_some, ==_iff, ltb→lt, lt→ltb, leb→le, le→leb, length, take, drop, replicate, All,
  All-take, All-filter_by, All-implies, All-concat, filter_by, length-append, All-append, All-map,
  All-flat_map, All-sort_by, flat_map, sort_by, length-take, length-drop, take-append-drop,
  GoString, str, ◌===◌, text_eq_refl, text_eq_iff, is_empty, until, split, is_space, trim_left,
  trim_right, trim_space, to_lower_byte, to_lower,
}

pub data Status : Type 0 where
  pending sending sent failed canceled : Status

-- A row of "Notification": the columns that the worker reads or writes.
pub record Notification : Type 0 where
  pub id : GoString
  pub tenant_id : GoString
  pub kind : GoString
  pub fanout : GoString
  pub status : Status
  pub title : Option GoString
  pub body : Option GoString
  pub message_key : Option GoString
  pub message_data : GoString
  pub audience_type : Option GoString
  pub audience_id : Option GoString
  pub recipient_count : Option ℕ
  pub sent_count : ℕ
  pub failed_count : ℕ
  pub last_batch_index : Option ℕ
  pub scheduled_at : Option ℕ
  pub created_at : ℕ
  pub updated_at : ℕ
  pub sent_at : Option ℕ
  pub failure_reason : Option GoString

-- "NotificationDevice"; a device that is not bound to a user yet has no user_id.
pub record Device : Type 0 where
  pub id : GoString
  pub user_id : Option GoString
  pub tenant_id : GoString
  pub token : GoString

-- "UsersOnTenants"; pushDisabledTypes is [] where it is NULL.
pub record Membership : Type 0 where
  pub user_id : GoString
  pub tenant_id : GoString
  pub push_disabled_types : List GoString

pub record UserNotification : Type 0 where
  pub id : GoString
  pub notification_id : GoString
  pub user_id : GoString
  pub tenant_id : GoString

pub record MemberOnDelivery : Type 0 where
  pub member_id : GoString
  pub delivery_id : GoString
  pub tenant_id : GoString

pub record Database : Type 0 where
  pub notifications : List Notification
  pub devices : List Device
  pub memberships : List Membership
  pub user_notifications : List UserNotification
  pub members : List MemberOnDelivery
  pub instances : List (GoString × Option GoString)  -- "Tenant": id and notificationsInstance

abbrev pub is_pending : Status → Bool
is_pending pending = true
is_pending _ = false

abbrev pub is_sending : Status → Bool
is_sending sending = true
is_sending _ = false

-- `"scheduledAt" IS NULL OR "scheduledAt" <= NOW()`
abbrev pub is_due : ℕ → Option ℕ → Bool
is_due now none = true
is_due now (some at) = leb at now

unfoldable pub due : ℕ → Notification → Bool
due now n = is_pending n.status && is_due now n.scheduled_at

unfoldable pub has_notification : GoString → List Notification → Bool
has_notification id [] = false
has_notification id (n ∷ ns) = (id === n.id) || has_notification id ns

unfoldable pub first_due : ℕ → ℕ → List Notification → List Notification
unfolding due
first_due limit now ns =
    take limit (sort_by (λ a b. leb a.created_at b.created_at) (filter_by (due now) ns))

abbrev pub taken : ℕ → Notification → Notification
taken now n = record n { status = sending; updated_at = now }

-- claimPending: the rows it returns, and the database.
unfoldable pub claim_pending : ℕ → ℕ → Database → List Notification × Database
unfolding first_due has_notification
claim_pending limit now db =
    let chosen = first_due limit now db.notifications in
    (
      map (taken now) (filter_by (λ n. has_notification n.id chosen) db.notifications),
      record db {
        notifications =
            map (λ n. if has_notification n.id chosen then taken now n else n) db.notifications;
      },
    )

-- `status = 'sending' AND "updatedAt" < NOW() - INTERVAL '5 minutes'`
unfoldable pub orphaned : ℕ → Notification → Bool
orphaned now n = is_sending n.status && ltb (n.updated_at + 300) now

unfoldable pub reset_orphans : ℕ → Database → ℕ × Database
unfolding orphaned
reset_orphans now db = (
  length (filter_by (orphaned now) db.notifications),
  record db {
    notifications =
        map (λ n. if orphaned now n then record n { status = pending; updated_at = now } else n)
          db.notifications;
  },
)

-- `UPDATE "Notification" SET … WHERE id = $1`
unfoldable pub update_notification : GoString → (Notification → Notification) → Database → Database
update_notification id f db = record db {
  notifications = map (λ n. if id === n.id then f n else n) db.notifications;
}

unfoldable pub mark_sent : GoString → ℕ → ℕ → ℕ → Database → Database
unfolding update_notification
mark_sent id sent_count failed_count now db =
    update_notification id
      (λ n. record n {
        status = sent;
        sent_at = some now;
        sent_count = sent_count;
        failed_count = failed_count;
        updated_at = now;
      })
      db

unfoldable pub mark_failed : GoString → GoString → ℕ → Database → Database
unfolding update_notification
mark_failed id reason now db =
    update_notification id
      (λ n. record n { status = failed; failure_reason = some reason; updated_at = now }) db

unfoldable pub update_progress : GoString → ℕ → ℕ → ℕ → ℕ → Database → Database
unfolding update_notification
update_progress id sent_count failed_count last_batch_index now db =
    update_notification id
      (λ n. record n {
        sent_count = sent_count;
        failed_count = failed_count;
        last_batch_index = some last_batch_index;
        updated_at = now;
      })
      db

unfoldable pub set_recipient_count : GoString → ℕ → ℕ → Database → Database
unfolding update_notification
set_recipient_count id count now db =
    update_notification id (λ n. record n { recipient_count = some count; updated_at = now }) db

-- deref, and NullString
abbrev pub or_empty : Option GoString → GoString
or_empty none = []
or_empty (some s) = s

-- `none` for sql.ErrNoRows; a NULL instance is "".
abbrev pub instance_of : GoString → List (GoString × Option GoString) → Option GoString
instance_of tenant_id [] = none
instance_of tenant_id ((id, instance_name) ∷ rest) =
    let others = instance_of tenant_id rest in
    if tenant_id === id then some (or_empty instance_name) else others

unfoldable pub get_tenant_instance : GoString → Database → Option GoString
get_tenant_instance tenant_id db = instance_of tenant_id db.instances

unfoldable pub delete_device : GoString → GoString → Database → Database
delete_device tenant_id token db = record db {
  devices = filter_by (λ d. not ((d.tenant_id === tenant_id) && (d.token === token))) db.devices;
}
