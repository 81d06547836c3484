-- ===== src/Notifications/Rows.antt =====
-- How the statements change the row with a given id.
use memberclass_backend_gola.Notifications.Worker.{
  Query, attempted, delete_token, count_update, device_delete, drop_dead_tokens, Remote, counted,
  SendResponse, unregistered, accepted, rejected,
}
use memberclass_backend_gola.Notifications.{
  Notification, Database, update_notification, set_recipient_count, update_progress, sent,
  mark_sent, mark_failed, delete_device, failed,
}
use memberclass_backend_gola.Common.{
  refl, ◌≡◌, ap, inl, inr, Option, none, some, List, [], ◌∷◌, map, if◌then◌else◌, Bool-cases,
  GoString, ◌===◌, true, ◌∙◌, arith, false, ℕ, is_some, Option-cases,
}

unfoldable pub find_notification : GoString → List Notification → Option Notification
unfolding ◌===◌
find_notification id [] = none
find_notification id (n ∷ ns) =
    let rest = find_notification id ns in if id === n.id then some n else rest

-- The first row with this id, with a property.
abbrev pub Row : (Notification → Type 0) → GoString → Database → Type 0
Row P id db = (n : Notification) × (find_notification id db.notifications ≡ some n) × P n

find_here :
    (id : GoString) (ns : List Notification) (n : Notification)
    → find_notification id ns ≡ some n
    → (id === n.id) ≡ true
unfolding find_notification
find_here id [] n e = cc
find_here id (m ∷ ms) n e = elim (Bool-cases (id === m.id)) [
  | inl here ↦ ground (arith, here)
  | inr later ↦ find_here id ms n (rw (later, find_notification) at e)
]

pub find-map :
    (g : Notification → Notification)
    → ((n : Notification) → (g n).id ≡ n.id)
    → (id : GoString) (ns : List Notification)
    → find_notification id (map g ns)
      ≡ (elim (find_notification id ns) [ none ↦ none | some n ↦ some (g n) ])
unfolding find_notification
find-map g same id [] = refl
find-map g same id (n ∷ ns) = elim (Bool-cases (id === n.id)) [
  | inl here ↦ rw (ap (λ t. id === t) (same n) ∙ here, here) refl
  | inr later ↦ rw (ap (λ t. id === t) (same n) ∙ later, later) (find-map g same id ns)
]

-- An update that keeps the id and a property keeps a row with it.
map-Row :
    (P Q : Notification → Type 0) (id : GoString) (g : Notification → Notification) (db : Database)
    → ((n : Notification) → (g n).id ≡ n.id)
    → ((n : Notification) → (id === n.id) ≡ true → P n → Q (g n))
    → Row P id db
    → Row Q id (record db { notifications = map g db.notifications })
map-Row P Q id g db same each (n, found, p) = (
  g n,
  rw (find-map g same id db.notifications, found) refl,
  each n (find_here id db.notifications n found) p,
)

pub update-Row :
    (P Q : Notification → Type 0) (key id : GoString) (f : Notification → Notification)
    (db : Database)
    → ((n : Notification) → (f n).id ≡ n.id)
    → ((n : Notification) → P n → Q (f n))
    → ((n : Notification) → (key === n.id) ≡ false → (id === n.id) ≡ true → P n → Q n)
    → Row P id db
    → Row Q id (update_notification key f db)
unfolding update_notification
update-Row P Q key id f db same each other row =
    map-Row P Q id (λ n. if key === n.id then f n else n) db
      (λ n. elim (Bool-cases (key === n.id)) [ inl h ↦ rw h (same n) | inr h ↦ rw h refl ])
      (λ n here p. elim (Bool-cases (key === n.id)) [
        | inl h ↦ rw h (each n p)
        | inr h ↦ rw h (other n h here p)
      ])
      row

-- A property that a row keeps when its status does not change, and has once it is sent or failed.
pub record IsStable (P : Notification → Type 0) : Type 0 where
  pub keeps : (n m : Notification) → m.status ≡ n.status → P n → P m
  pub on_sent : (m : Notification) → m.status ≡ sent → P m
  pub on_failed : (m : Notification) → m.status ≡ failed → P m

module _ (P : Notification → Type 0) (stable : IsStable P) (id : GoString) where
  update_kept :
      (key : GoString) (f : Notification → Notification) (db : Database)
      → ((n : Notification) → (f n).id ≡ n.id)
      → ((n : Notification) → P n → P (f n))
      → Row P id db
      → Row P id (update_notification key f db)
  update_kept key f db same each = update-Row P P key id f db same each (λ n h here p. p)

  pub mark_sent-Row :
      (key : GoString) (sent_count failed_count now : ℕ) (db : Database)
      → Row P id db
      → Row P id (mark_sent key sent_count failed_count now db)
  unfolding mark_sent
  mark_sent-Row key sent_count failed_count now db =
      update_kept key _ db (λ n. refl) (λ n p. stable.on_sent _ refl)

  pub mark_failed-Row :
      (key reason : GoString) (now : ℕ) (db : Database)
      → Row P id db
      → Row P id (mark_failed key reason now db)
  unfolding mark_failed
  mark_failed-Row key reason now db =
      update_kept key _ db (λ n. refl) (λ n p. stable.on_failed _ refl)

  pub update_progress-Row :
      (key : GoString) (sent_count failed_count index now : ℕ) (db : Database)
      → Row P id db
      → Row P id (update_progress key sent_count failed_count index now db)
  unfolding update_progress
  update_progress-Row key sent_count failed_count index now db =
      update_kept key _ db (λ n. refl) (λ n p. stable.keeps n _ refl p)

  -- A statement that may be refused.
  pub attempted-Row :
      (remote : Remote) (query : Query) (write : Database → Database) (db : Database)
      → (Row P id db → Row P id (write db))
      → Row P id db
      → Row P id (attempted remote query write db)
  unfolding attempted
  attempted-Row remote query write db keeps row = elim (Option-cases (remote.query_error query)) [
    | inl answered ↦ rw (answered, attempted) (keeps row)
    | inr (e, refused_it) ↦ rw (refused_it, attempted) row
  ]

  pub counted-Row :
      (remote : Remote) (n : Notification) (count now : ℕ) (db : Database)
      → Row P id db
      → Row P id (counted remote n count now db)
  unfolding set_recipient_count
  counted-Row remote n count now db row = elim (Bool-cases (is_some n.recipient_count)) [
    | inl known ↦ rw known row
    | inr unknown ↦ rw unknown (
        attempted-Row remote (count_update n.id) (set_recipient_count n.id count now) db
          (update_kept n.id _ db (λ n. refl) (λ n p. stable.keeps n _ refl p)) row)
  ]

  pub delete_token-Row :
      (remote : Remote) (n : Notification) (token : GoString) (db : Database)
      → Row P id db
      → Row P id (delete_token remote n token db)
  unfolding delete_device
  delete_token-Row remote n token db row =
      attempted-Row remote (device_delete n.id token) (delete_device n.tenant_id token) db
        (λ row. row) row

  pub drop_dead_tokens-Row :
      (delete : GoString → Database → Database)
      → ((token : GoString) (db : Database) → Row P id db → Row P id (delete token db))
      → (responses : List SendResponse) (tokens : List GoString) (db : Database) → Row P id db
      → Row P id (drop_dead_tokens delete responses tokens db)
  unfolding drop_dead_tokens
  drop_dead_tokens-Row delete keeps [] tokens db row = row
  drop_dead_tokens-Row delete keeps (response ∷ responses) [] db row = row
  drop_dead_tokens-Row delete keeps (unregistered ∷ responses) (token ∷ tokens) db row =
      drop_dead_tokens-Row delete keeps responses tokens (delete token db) (keeps token db row)
  drop_dead_tokens-Row delete keeps (accepted ∷ responses) (token ∷ tokens) db row =
      drop_dead_tokens-Row delete keeps responses tokens db row
  drop_dead_tokens-Row delete keeps (rejected ∷ responses) (token ∷ tokens) db row =
      drop_dead_tokens-Row delete keeps responses tokens db row
