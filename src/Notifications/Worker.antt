-- ===== src/Notifications/Worker.antt =====
-- worker.go: tick, dispatch and sendMulticast. The FCM client is a parameter, and so is the client that
-- fcm.go hands out for an instance; the clock stands still during a tick.
use memberclass_backend_gola.Notifications.Render.{render_for_push}
use memberclass_backend_gola.Common.Decimal.{format_nat}
use memberclass_backend_gola.Notifications.Recipients.{Recipient, resolve_recipients}
use memberclass_backend_gola.Notifications.{
  Notification, Database, delete_device, set_recipient_count, mark_failed, claim_pending,
  get_tenant_instance, update_progress, mark_sent,
}
use memberclass_backend_gola.Common.{
  ℕ, zero, suc, ◌+◌, ◌-◌, ◌*◌, ◌/◌, ◌&&◌, Option, none, some, List, [], ◌∷◌, ◌++◌, map, ltb, leb,
  ◌==◌, if◌then◌else◌, is_some, length, take, drop, GoString, str,
}

-- What messaging.SendResponse says of one token: Error is nil, is a registration-token-not-registered
-- error, or is another one.
pub data SendResponse : Type 0 where
  accepted unregistered rejected : SendResponse

-- A value or the text of an error.
pub data Reply (A : Type 0) : Type 0 where
  answer : A → Reply A
  refused : GoString → Reply A

pub record BatchResponse : Type 0 where
  pub success_count : ℕ
  pub failure_count : ℕ
  pub responses : List SendResponse

-- The statements of one tick: the update of claimPending and its answer; and, for a notification by its
-- id, the queries of the instance and of the recipients and the updates, with the batch or the token.
pub data Query : Type 0 where
  claim_update claim_answer : Query
  instance_query recipients_query count_update sent_update failed_update : GoString → Query
  progress_update : GoString → ℕ → Query
  device_delete : GoString → GoString → Query

-- messaging of fcm.go, SendEachForMulticast of the client, and the statements that the database refuses;
-- an error is its text. A statement that is refused writes nothing.
pub record Remote : Type 1 where
  pub State : Type 0
  pub Client : Type 0
  pub messaging : GoString → State → Reply Client × State
  pub query_error : Query → Option GoString
  pub send_each : Client → GoString → GoString → List GoString → State → Reply BatchResponse × State

abbrev pub batch_size : ℕ
batch_size = 500

abbrev pub claim_limit : ℕ
claim_limit = 50

-- The loop over resp.Responses: tokens that FCM calls unregistered are dropped, by `delete`. There is
-- one response for each token.
unfoldable pub drop_dead_tokens :
    (GoString → Database → Database) → List SendResponse → List GoString → Database → Database
drop_dead_tokens delete [] tokens db = db
drop_dead_tokens delete (response ∷ responses) [] db = db
drop_dead_tokens delete (unregistered ∷ responses) (token ∷ tokens) db =
    drop_dead_tokens delete responses tokens (delete token db)
drop_dead_tokens delete (accepted ∷ responses) (token ∷ tokens) db =
    drop_dead_tokens delete responses tokens db
drop_dead_tokens delete (rejected ∷ responses) (token ∷ tokens) db =
    drop_dead_tokens delete responses tokens db

abbrev pub start_batch : Option ℕ → ℕ
start_batch none = 0
start_batch (some index) = index + 1

module _ (remote : Remote) where
  open remote use {State, Client}

  -- A statement whose error is only logged.
  unfoldable pub attempted : Query → (Database → Database) → Database → Database
  attempted query write db = elim (remote.query_error query) [ none ↦ write db | some e ↦ db ]

  abbrev pub delete_token : Notification → GoString → Database → Database
  delete_token n token = attempted (device_delete n.id token) (delete_device n.tenant_id token)

  -- The variables of the loop, with what the process changes.
  pub record Progress : Type 0 where
    pub sent : ℕ
    pub failed : ℕ
    pub db : Database
    pub state : State

  -- What follows a call: an error ends the dispatch.
  unfoldable pub batch_sent :
      Notification
      → ℕ
      → ℕ
      → List GoString
      → Progress
      → Reply BatchResponse × State
      → Option GoString × Progress
  batch_sent n now batch_idx tokens p (refused text, s) = (
    some (str "fcm multicast batch " ++ (format_nat batch_idx ++ (str ": " ++ text))),
    record p { state = s },
  )
  batch_sent n now batch_idx tokens p (answer response, s) =
      let sent = p.sent + response.success_count in
      let failed = p.failed + response.failure_count in
      (
        none,
        record {
          sent = sent;
          failed = failed;
          db =
              attempted (progress_update n.id batch_idx)
                (update_progress n.id sent failed batch_idx now)
                (drop_dead_tokens (delete_token n) response.responses tokens p.db);
          state = s;
        },
      )

  -- The body of the loop, on a chunk.
  unfoldable pub send_batch :
      Client
      → GoString
      → GoString
      → Notification
      → ℕ
      → ℕ
      → List Recipient
      → Progress
      → Option GoString × Progress
  unfolding batch_sent
  send_batch sender title body n now batch_idx chunk p =
      let tokens = map (λ r. r.token) chunk in
      batch_sent n now batch_idx tokens p (remote.send_each sender title body tokens p.state)

  -- The loop, for at most `rounds` rounds.
  unfoldable pub send_batches :
      Client
      → GoString
      → GoString
      → Notification
      → ℕ
      → List Recipient
      → ℕ
      → ℕ
      → Progress
      → Option GoString × Progress
  unfolding send_batch
  send_batches sender title body n now recipients zero batch_idx p = (none, p)
  send_batches sender title body n now recipients (suc rounds) batch_idx p =
      let i = batch_idx * batch_size in
      let (e, p') =
        send_batch sender title body n now batch_idx (take batch_size (drop i recipients)) p in
      let rest = send_batches sender title body n now recipients rounds (suc batch_idx) p' in
      if leb (length recipients) i
      then (none, p)
      else elim e [ none ↦ rest | some text ↦ (some text, p') ]

  -- totalBatches, which is enough rounds
  abbrev pub total_batches : List Recipient → ℕ
  total_batches recipients = (length recipients + batch_size - 1) / batch_size

  -- `return f.markSent(…)`
  unfoldable pub closed_as_sent :
      Notification → ℕ → ℕ → ℕ → Database → State → Option GoString × (Database × State)
  closed_as_sent n sent_count failed_count now db s = elim (remote.query_error (sent_update n.id)) [
    | none ↦ (none, (mark_sent n.id sent_count failed_count now db, s))
    | some e ↦ (some e, (db, s))
  ]

  -- Behind the loop.
  unfoldable pub finish :
      Notification → ℕ → Option GoString × Progress → Option GoString × (Database × State)
  unfolding closed_as_sent
  finish n now (some text, p) = (some text, (p.db, p.state))
  finish n now (none, p) =
      if (p.sent == 0) && ltb 0 p.failed
      then (some (str "all " ++ (format_nat p.failed ++ str " FCM sends failed")), (p.db, p.state))
      else closed_as_sent n p.sent p.failed now p.db p.state

  abbrev pub counted : Notification → ℕ → ℕ → Database → Database
  counted n count now db =
      if is_some n.recipient_count
      then db
      else attempted (count_update n.id) (set_recipient_count n.id count now) db

  -- Before the loop.
  abbrev pub first_progress : Notification → ℕ → ℕ → Database → State → Progress
  first_progress n count now db s = record {
    sent = n.sent_count;
    failed = n.failed_count;
    db = counted n count now db;
    state = s;
  }

  -- sendMulticast, once the recipients are known.
  unfoldable pub send_to :
      Client
      → Notification
      → GoString
      → GoString
      → ℕ
      → List Recipient
      → Database
      → State
      → Option GoString × (Database × State)
  unfolding send_batches finish closed_as_sent
  send_to sender n title body now recipients db s =
      let db' = counted n (length recipients) now db in
      if length recipients == 0
      then closed_as_sent n 0 0 now db' s
      else finish n now (
          send_batches sender title body n now recipients (total_batches recipients)
            (start_batch n.last_batch_index) (first_progress n (length recipients) now db s))

  unfoldable pub send_multicast :
      Client
      → Notification
      → GoString
      → GoString
      → ℕ
      → Database
      → State
      → Option GoString × (Database × State)
  unfolding send_to
  send_multicast sender n title body now db s = elim (remote.query_error (recipients_query n.id)) [
    | none ↦ send_to sender n title body now (resolve_recipients db n) db s
    | some e ↦ (some (str "resolve recipients: " ++ e), (db, s))
  ]

  unfoldable pub with_client :
      Notification
      → GoString × GoString
      → ℕ
      → Database
      → Reply Client × State
      → Option GoString × (Database × State)
  unfolding send_multicast
  with_client n text now db (refused e, s) = (some (str "fcm client: " ++ e), (db, s))
  with_client n (title, body) now db (answer sender, s) =
      send_multicast sender n title body now db s

  unfoldable pub with_instance :
      Notification
      → GoString × GoString
      → ℕ
      → Option GoString
      → Database
      → State
      → Option GoString × (Database × State)
  unfolding with_client
  with_instance n text now none db s =
      (some (str "get tenant instance: sql: no rows in result set"), (db, s))
  with_instance n text now (some instance_name) db s =
      with_client n text now db (remote.messaging instance_name s)

  -- dispatch; `decode` stands for encoding/json, as in Render.
  unfoldable pub dispatch :
      (GoString → Option (List (GoString × GoString)))
      → Notification
      → ℕ
      → Database
      → State
      → Option GoString × (Database × State)
  unfolding with_instance
  dispatch decode n now db s = elim (remote.query_error (instance_query n.id)) [
    | none ↦
        with_instance n (render_for_push decode n) now (get_tenant_instance n.tenant_id db) db s
    | some e ↦ (some (str "get tenant instance: " ++ e), (db, s))
  ]

  unfoldable pub closed_after :
      Notification → ℕ → Option GoString × (Database × State) → Database × State
  unfolding attempted
  closed_after n now (none, (db, s)) = (db, s)
  closed_after n now (some text, (db, s)) =
      (attempted (failed_update n.id) (mark_failed n.id text now) db, s)

  -- The body of the loop of tick.
  unfoldable pub handle :
      (GoString → Option (List (GoString × GoString)))
      → ℕ
      → Notification
      → Database × State
      → Database × State
  unfolding dispatch closed_after
  handle decode now n (db, s) = closed_after n now (dispatch decode n now db s)

  unfoldable pub handle_all :
      (GoString → Option (List (GoString × GoString)))
      → ℕ
      → List Notification
      → Database × State
      → Database × State
  unfolding handle
  handle_all decode now [] here = here
  handle_all decode now (n ∷ ns) here = handle_all decode now ns (handle decode now n here)

  -- claimPending: refused, or its answer lost, or answered.
  unfoldable pub claim_rows : ℕ → Database → List Notification × Database
  claim_rows now db = elim (remote.query_error claim_update) [
    | some e ↦ ([], db)
    | none ↦ elim (remote.query_error claim_answer) [
      | some e ↦ ([], (claim_pending claim_limit now db).1)
      | none ↦ claim_pending claim_limit now db
    ]
  ]

  unfoldable pub tick :
      (GoString → Option (List (GoString × GoString))) → ℕ → Database × State → Database × State
  unfolding handle_all claim_rows
  tick decode now (db, s) =
      let (notifs, db') = claim_rows now db in handle_all decode now notifs (db', s)
