-- ===== src/Notifications/Preferences.antt =====
-- Who is told: the recipients respect what users have muted.
use memberclass_backend_gola.Notifications.Recipients.{
  resolve_recipients, memberships_of, mutes, written_to, owned_by, whole_tenant, member_rows, Keyed,
  joined, query_recipients, Recipient, key_leb, tenant_rows, devices_of, delivery_members,
}
use memberclass_backend_gola.Notifications.{Database, Membership, Device, Notification, or_empty}
use memberclass_backend_gola.Common.{
  ◌≤◌, ◌≡◌, refl, inl, inr, true, false, not, ◌&&◌, Option, none, some, List, [], ◌∷◌, arith,
  Bool-cases, length, All, All-filter_by, filter_by, All-map, All-flat_map, All-sort_by, sort_by,
  GoString, str, ◌===◌, text_eq_iff,
}

-- (userId, tenantId) is the primary key of "UsersOnTenants".
abbrev pub OneMembership : Database → Type 0
OneMembership db =
    (user_id tenant_id : GoString) → length (memberships_of user_id tenant_id db.memberships) ≤ 1

-- No membership of the device's owner at the device's tenant mutes this kind of notification.
abbrev pub Unmuted : Database → GoString → Device → Type 0
Unmuted db kind d = All (λ m. mutes kind m ≡ false) (joined db d d.user_id)

-- A recipient stands for a device of the database, with property P of its devices, that is not muted.
abbrev pub Allowed : Database → GoString → (Device → Type 0) → Recipient → Type 0
Allowed db kind P r = (d : Device) × P d × (d.token ≡ r.token) × Unmuted db kind d

abbrev Quiet : GoString → List Membership → Type 0
Quiet kind ms = All (λ k. mutes kind k ≡ false) ms

-- Of at most one row, if one passes the test all do.
All-pass :
    (kind : GoString) (ms : List Membership)
    → length ms ≤ 1
    → All (λ m. Quiet kind ms) (filter_by (λ k. not (mutes kind k)) ms)
All-pass kind [] h = tt
All-pass kind (m ∷ []) h = elim (Bool-cases (mutes kind m)) [
  | inl muted ↦ rw muted tt
  | inr quiet ↦ rw quiet ((refl, tt), tt)
]
All-pass kind (m ∷ k ∷ ms) h = ground (arith, h)

owned-joined :
    (db : Database) (d : Device) (user_id tenant_id : GoString) (o : Option GoString)
    → (owned_by user_id o && (d.tenant_id === tenant_id)) ≡ true
    → joined db d o ≡ memberships_of user_id tenant_id db.memberships
owned-joined db d user_id tenant_id none h = ground (arith, h)
owned-joined db d user_id tenant_id (some owner) h =
    let same_user : owner ≡ user_id = ground (arith, h, text_eq_iff owner user_id) in
    let same_tenant : d.tenant_id ≡ tenant_id =
      ground (arith, h, text_eq_iff d.tenant_id tenant_id) in
    rw (same_user, same_tenant) refl

module _ (db : Database) (kind : GoString) (P : Device → Type 0) (one : OneMembership db)
    (devices : All P db.devices) where
  member_rows-Allowed :
      (user_id tenant_id : GoString) (to_row : Device → Keyed)
      → ((d : Device) → d.token ≡ (to_row d).row.token)
      → All (λ k. Allowed db kind P k.row) (member_rows db kind user_id tenant_id to_row)
  unfolding member_rows devices_of
  member_rows-Allowed user_id tenant_id to_row same =
      let ms = memberships_of user_id tenant_id db.memberships in
      All-flat_map (λ m. Quiet kind ms) (λ k. Allowed db kind P k.row) _
        (λ m quiet.
          All-map _ (λ k. Allowed db kind P k.row) to_row
            (λ d h. (d, h.0, same d, rw (owned-joined db d user_id tenant_id d.user_id h.1) quiet))
            (devices_of user_id tenant_id db.devices) (All-filter_by P _ db.devices devices))
        (filter_by (λ m. not (mutes kind m)) ms) (All-pass kind ms (one user_id tenant_id))

  tenant_rows-Allowed :
      (d : Device) (row : Keyed) (ms : List Membership)
      → P d
      → d.token ≡ row.row.token
      → ms ≡ joined db d d.user_id
      → length ms ≤ 1
      → All (λ k. Allowed db kind P k.row) (tenant_rows kind row ms)
  tenant_rows-Allowed d row [] p same these few = ((d, p, same, rw (← these) tt), tt)
  tenant_rows-Allowed d row (m ∷ ms) p same these few =
      All-map _ (λ k. Allowed db kind P k.row) (λ k. row)
        (λ k quiet. (d, p, same, rw (← these) quiet)) (filter_by (λ k. not (mutes kind k)) (m ∷ ms))
        (All-pass kind (m ∷ ms) few)

  joined_few : (d : Device) (o : Option GoString) → length (joined db d o) ≤ 1
  joined_few d none = omega arith
  joined_few d (some user_id) = one user_id d.tenant_id

  query_recipients-Allowed :
      (rows : List Keyed)
      → All (λ k. Allowed db kind P k.row) rows
      → All (Allowed db kind P) (query_recipients rows)
  unfolding query_recipients
  query_recipients-Allowed rows h =
      All-map (λ k. Allowed db kind P k.row) (Allowed db kind P) (λ k. k.row) (λ k a. a)
        (sort_by key_leb rows) (All-sort_by _ key_leb rows h)

  everything : {A : Type 0} → (xs : List A) → All (λ x. Unit {0}) xs
  everything [] = tt
  everything (x ∷ xs) = (tt, everything xs)

-- With one membership for each user and tenant, every recipient stands for a device of the database
-- whose owner, if it has one, has not muted this kind of notification at the device's tenant. What
-- holds of all devices, P, holds of it.
pub resolve_recipients-Allowed :
    (db : Database) (n : Notification) (P : Device → Type 0)
    → OneMembership db
    → All P db.devices
    → All (Allowed db n.kind P) (resolve_recipients db n)
unfolding resolve_recipients written_to whole_tenant delivery_members
resolve_recipients-Allowed db n P one devices =
    let written = query_recipients-Allowed db n.kind P one devices (written_to db n) (
      All-flat_map (λ un. Unit {0}) (λ k. Allowed db n.kind P k.row) _
        (λ un u. elim (Bool-cases (un.notification_id === n.id)) [
          | inl h ↦
              rw h
                (member_rows-Allowed db n.kind P one devices un.user_id un.tenant_id _ (λ d. refl))
          | inr h ↦ rw h tt
        ])
        db.user_notifications (everything db n.kind P one devices db.user_notifications)) in
    let whole = query_recipients-Allowed db n.kind P one devices (whole_tenant db n) (
      All-flat_map P (λ k. Allowed db n.kind P k.row) _
        (λ d p. elim (Bool-cases (d.tenant_id === n.tenant_id)) [
          | inl h ↦ rw h (
              tenant_rows-Allowed db n.kind P one devices d _ (joined db d d.user_id) p refl refl
                (joined_few db n.kind P one devices d d.user_id))
          | inr h ↦ rw h tt
        ])
        db.devices devices) in
    let delivered = query_recipients-Allowed db n.kind P one devices (delivery_members db n) (
      All-flat_map (λ link. Unit {0}) (λ k. Allowed db n.kind P k.row) _
        (λ link u.
          elim (Bool-cases
            ((link.delivery_id === or_empty n.audience_id) && (link.tenant_id === n.tenant_id))) [
              | inl h ↦ rw h (
                  member_rows-Allowed db n.kind P one devices link.member_id link.tenant_id _
                    (λ d. refl))
              | inr h ↦ rw h tt
            ])
        db.members (everything db n.kind P one devices db.members)) in
    elim (Bool-cases (n.fanout === str "WRITE")) [
      | inl w ↦ rw w written
      | inr w ↦
          elim (Bool-cases
            ((n.fanout === str "READ") && (or_empty n.audience_type === str "tenant"))) [
              | inl t ↦ rw (w, t) whole
              | inr t ↦
                  elim (Bool-cases
                    ((n.fanout === str "READ") && (or_empty n.audience_type === str "delivery"))) [
                      | inl e ↦ rw (w, t, e) delivered
                      | inr e ↦ rw (w, t, e) tt
                    ]
            ]
    ]
