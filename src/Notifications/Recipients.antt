-- ===== src/Notifications/Recipients.antt =====
-- recipients.go: the queries as joins of the lists of rows. Text columns compare by bytes.
use memberclass_backend_gola.Notifications.{Database, Device, Membership, Notification, or_empty}
use memberclass_backend_gola.Common.{
  Bool, false, not, ◌&&◌, Option, none, some, List, [], ◌∷◌, map, if◌then◌else◌, filter_by,
  flat_map, sort_by, GoString, str, ◌===◌, text_leb, has_text,
}

pub record Recipient : Type 0 where
  pub user_id : GoString
  pub token : GoString

-- A row of a result with the columns of its ORDER BY.
pub record Keyed : Type 0 where
  pub first : GoString
  pub second : GoString
  pub row : Recipient

unfoldable pub key_leb : Keyed → Keyed → Bool
key_leb a b = if a.first === b.first then text_leb a.second b.second else text_leb a.first b.first

-- `$n::text = ANY("pushDisabledTypes")`
abbrev pub mutes : GoString → Membership → Bool
mutes kind m = has_text kind m.push_disabled_types

unfoldable pub memberships_of : GoString → GoString → List Membership → List Membership
memberships_of user_id tenant_id ms =
    filter_by (λ m. (m.user_id === user_id) && (m.tenant_id === tenant_id)) ms

abbrev pub owned_by : GoString → Option GoString → Bool
owned_by user_id none = false
owned_by user_id (some owner) = owner === user_id

unfoldable pub devices_of : GoString → GoString → List Device → List Device
devices_of user_id tenant_id ds =
    filter_by (λ d. owned_by user_id d.user_id && (d.tenant_id === tenant_id)) ds

-- The joins that both member queries share: memberships that do not mute, with the user's devices.
unfoldable pub member_rows :
    Database → GoString → GoString → GoString → (Device → Keyed) → List Keyed
unfolding memberships_of devices_of
member_rows db kind user_id tenant_id to_row =
    flat_map (λ m. map to_row (devices_of user_id tenant_id db.devices))
      (filter_by (λ m. not (mutes kind m)) (memberships_of user_id tenant_id db.memberships))

-- ORDER BY un.id
unfoldable pub written_to : Database → Notification → List Keyed
unfolding member_rows
written_to db n =
    flat_map
      (λ un.
        if un.notification_id === n.id
        then member_rows db n.kind un.user_id un.tenant_id (λ d. record {
          first = un.id;
          second = [];
          row = record { user_id = un.user_id; token = d.token };
        })
        else [])
      db.user_notifications

-- The LEFT JOIN on a device without an owner finds no membership.
abbrev pub joined : Database → Device → Option GoString → List Membership
joined db d none = []
joined db d (some user_id) = memberships_of user_id d.tenant_id db.memberships

-- One row for each membership, or one with NULLs.
abbrev pub tenant_rows : GoString → Keyed → List Membership → List Keyed
tenant_rows kind row [] = row ∷ []
tenant_rows kind row (m ∷ ms) = map (λ m. row) (filter_by (λ m. not (mutes kind m)) (m ∷ ms))

-- ORDER BY nd.id
unfoldable pub whole_tenant : Database → Notification → List Keyed
unfolding memberships_of
whole_tenant db n =
    flat_map
      (λ d.
        if d.tenant_id === n.tenant_id
        then tenant_rows n.kind
            (record {
              first = d.id;
              second = [];
              row = record { user_id = or_empty d.user_id; token = d.token };
            })
            (joined db d d.user_id)
        else [])
      db.devices

-- ORDER BY link."memberId", nd.id
unfoldable pub delivery_members : Database → Notification → List Keyed
unfolding member_rows
delivery_members db n =
    flat_map
      (λ link.
        if (link.delivery_id === or_empty n.audience_id) && (link.tenant_id === n.tenant_id)
        then member_rows db n.kind link.member_id link.tenant_id (λ d. record {
          first = link.member_id;
          second = d.id;
          row = record { user_id = link.member_id; token = d.token };
        })
        else [])
      db.members

-- queryRecipients
unfoldable pub query_recipients : List Keyed → List Recipient
unfolding key_leb
query_recipients rows = map (λ k. k.row) (sort_by key_leb rows)

unfoldable pub resolve_recipients : Database → Notification → List Recipient
unfolding query_recipients written_to whole_tenant delivery_members
resolve_recipients db n =
    if n.fanout === str "WRITE"
    then query_recipients (written_to db n)
    else if (n.fanout === str "READ") && (or_empty n.audience_type === str "tenant")
    then query_recipients (whole_tenant db n)
    else if (n.fanout === str "READ") && (or_empty n.audience_type === str "delivery")
    then query_recipients (delivery_members db n)
    else []
