-- ===== src/Notifications/Ticks.antt =====
-- A tick closes every row that it takes.
use memberclass_backend_gola.Notifications.Render.{render_for_push}
use memberclass_backend_gola.Notifications.Recipients.{resolve_recipients, Recipient}
use memberclass_backend_gola.Notifications.Closing.{
  handle-Row, Anything, IsClosed, IsClosed-IsStable, Anything-IsStable, send_batches-Row,
}
use memberclass_backend_gola.Notifications.Rows.{
  find_notification, IsStable, Row, update-Row, find-map, counted-Row,
}
use memberclass_backend_gola.Notifications.{
  Notification, claim_pending, mark_sent, mark_failed, Database, first_due, get_tenant_instance,
  has_notification, taken,
}
use memberclass_backend_gola.Notifications.Worker.{
  closed_as_sent, send_to, attempted, claim_rows, claim_update, claim_answer, sent_update,
  recipients_query, failed_update, instance_query, Remote, closed_after, with_instance, handle,
  tick, finish, handle_all, send_multicast, with_client, Reply, Progress, dispatch, claim_limit,
  refused, first_progress, answer, start_batch, send_batches, total_batches,
}
use memberclass_backend_gola.Common.{
  Option-cases, ℕ, ◌≡◌, refl, inl, inr, ◌&&◌, Option, none, some, List, [], ◌∷◌, ltb, ◌==◌,
  if◌then◌else◌, Bool-cases, length, All, All-filter_by, All-implies, filter_by, All-map, GoString,
  ◌===◌, text_eq_refl,
}

module _ (remote : Remote) (decode : GoString → Option (List (GoString × GoString))) (now : ℕ) where
  open remote use {State, Client}

  mark_sent_closes :
      (id : GoString) (sent_count failed_count : ℕ) (db : Database)
      → Row Anything id db
      → Row IsClosed id (mark_sent id sent_count failed_count now db)
  unfolding mark_sent
  mark_sent_closes id sent_count failed_count db =
      update-Row Anything IsClosed id id _ db (λ n. refl) (λ n p. refl) (λ n h here p. cc (h, here))

  mark_failed_closes :
      (id reason : GoString) (db : Database)
      → Row Anything id db
      → Row IsClosed id (mark_failed id reason now db)
  unfolding mark_failed
  mark_failed_closes id reason db =
      update-Row Anything IsClosed id id _ db (λ n. refl) (λ n p. refl) (λ n h here p. cc (h, here))

  -- A dispatch without an error has closed the row; with one it is still there.
  abbrev Ended : Notification → Option GoString × (Database × State) → Type 0
  Ended n (none, (db, s)) = Row IsClosed n.id db
  Ended n (some text, (db, s)) = Row Anything n.id db

  closed_as_sent-Ended :
      (n : Notification) (sent_count failed_count : ℕ) (db : Database) (s : State)
      → Row Anything n.id db
      → Ended n (closed_as_sent remote n sent_count failed_count now db s)
  unfolding closed_as_sent
  closed_as_sent-Ended n sent_count failed_count db s row =
      elim (Option-cases (remote.query_error (sent_update n.id))) [
        | inl answered ↦
            rw (answered, closed_as_sent) (mark_sent_closes n.id sent_count failed_count db row)
        | inr (e, refused_it) ↦ rw (refused_it, closed_as_sent) row
      ]

  finish-Ended :
      (n : Notification) (r : Option GoString × Progress remote)
      → Row Anything n.id r.1.db
      → Ended n (finish remote n now r)
  unfolding finish
  finish-Ended n (some text, p) row = row
  finish-Ended n (none, p) row = elim (Bool-cases ((p.sent == 0) && ltb 0 p.failed)) [
    | inl bad ↦ rw bad row
    | inr good ↦ rw good (closed_as_sent-Ended n p.sent p.failed p.db p.state row)
  ]

  send_to-Ended :
      (sender : Client) (n : Notification) (title body : GoString) (rs : List Recipient)
      (db : Database) (s : State)
      → Row Anything n.id db
      → Ended n (send_to remote sender n title body now rs db s)
  unfolding send_to
  send_to-Ended sender n title body rs db s row =
      let p = first_progress remote n (length rs) now db s in
      let start = start_batch n.last_batch_index in
      let row1 = counted-Row Anything Anything-IsStable n.id remote n (length rs) now db row in
      elim (Bool-cases (length rs == 0)) [
        | inl nobody ↦ rw nobody (closed_as_sent-Ended n 0 0 p.db s row1)
        | inr some_rs ↦ rw some_rs (
            finish-Ended n
              (send_batches remote sender title body n now rs (total_batches remote rs) start p)
              (send_batches-Row remote decode now Anything Anything-IsStable n.id sender title body
                n rs (total_batches remote rs) start p row1))
      ]

  send_multicast-Ended :
      (sender : Client) (n : Notification) (title body : GoString) (db : Database) (s : State)
      → Row Anything n.id db
      → Ended n (send_multicast remote sender n title body now db s)
  unfolding send_multicast
  send_multicast-Ended sender n title body db s row =
      elim (Option-cases (remote.query_error (recipients_query n.id))) [
        | inl answered ↦
            rw (answered, send_multicast)
              (send_to-Ended sender n title body (resolve_recipients db n) db s row)
        | inr (e, refused_it) ↦ rw (refused_it, send_multicast) row
      ]

  with_client-Ended :
      (n : Notification) (text : GoString × GoString) (db : Database) (c : Reply Client × State)
      → Row Anything n.id db
      → Ended n (with_client remote n text now db c)
  unfolding with_client
  with_client-Ended n text db (refused e, s) row = row
  with_client-Ended n (title, body) db (answer sender, s) row =
      send_multicast-Ended sender n title body db s row

  with_instance-Ended :
      (n : Notification) (text : GoString × GoString) (o : Option GoString) (db : Database)
      (s : State)
      → Row Anything n.id db
      → Ended n (with_instance remote n text now o db s)
  unfolding with_instance
  with_instance-Ended n text none db s row = row
  with_instance-Ended n text (some name) db s row =
      with_client-Ended n text db (remote.messaging name s) row

  closed_after-Ended :
      (n : Notification) (r : Option GoString × (Database × State))
      → remote.query_error (failed_update n.id) ≡ none
      → Ended n r
      → Row IsClosed n.id (closed_after remote n now r).0
  unfolding closed_after
  closed_after-Ended n (none, (db, s)) answers row = row
  closed_after-Ended n (some text, (db, s)) answers row =
      rw (answers, attempted) (mark_failed_closes n.id text db row)

  dispatch-Ended :
      (n : Notification) (db : Database) (s : State)
      → Row Anything n.id db
      → Ended n (dispatch remote decode n now db s)
  unfolding dispatch
  dispatch-Ended n db s row = elim (Option-cases (remote.query_error (instance_query n.id))) [
    | inl answered ↦
        rw (answered, dispatch)
          (with_instance-Ended n (render_for_push decode n) (get_tenant_instance n.tenant_id db) db
            s row)
    | inr (e, refused_it) ↦ rw (refused_it, dispatch) row
  ]

  handle_closes :
      (n : Notification) (here : Database × State)
      → remote.query_error (failed_update n.id) ≡ none
      → Row Anything n.id here.0
      → Row IsClosed n.id (handle remote decode now n here).0
  unfolding handle
  handle_closes n (db, s) answers row =
      closed_after-Ended n (dispatch remote decode n now db s) answers (dispatch-Ended n db s row)

  handle_all-Row :
      (P : Notification → Type 0) (stable : IsStable P) (id : GoString) (ns : List Notification)
      (here : Database × State)
      → Row P id here.0
      → Row P id (handle_all remote decode now ns here).0
  unfolding handle_all
  handle_all-Row P stable id [] here row = row
  handle_all-Row P stable id (n ∷ ns) here row =
      handle_all-Row P stable id ns (handle remote decode now n here)
        (handle-Row remote decode now P stable id n here row)

  handle_all_closes :
      (ns : List Notification) (here : Database × State)
      → ((id : GoString) → remote.query_error (failed_update id) ≡ none)
      → All (λ n. Row Anything n.id here.0) ns
      → All (λ n. Row IsClosed n.id (handle_all remote decode now ns here).0) ns
  unfolding handle_all
  handle_all_closes [] here answers rows = tt
  handle_all_closes (n ∷ ns) here answers rows =
      let next = handle remote decode now n here in
      (
        handle_all-Row IsClosed IsClosed-IsStable n.id ns next
            (handle_closes n here (answers n.id) rows.0),
        handle_all_closes ns next answers (
            All-implies _ _
              (λ m row. handle-Row remote decode now Anything Anything-IsStable m.id n here row) ns
              rows.1),
      )

  FoundIn : List Notification → Notification → Type 0
  FoundIn ns n = (m : Notification) × (find_notification n.id ns ≡ some m)

  FoundIn-cons : (n m : Notification) (ns : List Notification) → FoundIn ns m → FoundIn (n ∷ ns) m
  unfolding FoundIn find_notification
  FoundIn-cons n m ns (k, found) = elim (Bool-cases (m.id === n.id)) [
    | inl same ↦ (n, rw same refl)
    | inr other ↦ (k, rw other found)
  ]

  FoundIn-self : (ns : List Notification) → All (FoundIn ns) ns
  unfolding FoundIn find_notification
  FoundIn-self [] = tt
  FoundIn-self (n ∷ ns) = (
    (n, rw (text_eq_refl n.id) refl),
    All-implies _ _ (λ m h. FoundIn-cons n m ns h) ns (FoundIn-self ns),
  )

  claimed_rows :
      (limit : ℕ) (db : Database)
      → All (λ n. Row Anything n.id (claim_pending limit now db).1) (claim_pending limit now db).0
  unfolding claim_pending FoundIn
  claimed_rows limit db =
      let chosen = first_due limit now db.notifications in
      let g = λ (n : Notification). if has_notification n.id chosen then taken now n else n in
      let keeps_id : (n : Notification) → (g n).id ≡ n.id = λ n.
        elim (Bool-cases (has_notification n.id chosen)) [
          | inl h ↦ rw h refl
          | inr h ↦ rw h refl
        ] in
      All-map _ (λ n. Row Anything n.id (claim_pending limit now db).1) (taken now)
        (λ n h. (g h.0.0, rw (find-map g keeps_id n.id db.notifications, h.0.1) refl, tt))
        (filter_by (λ n. has_notification n.id chosen) db.notifications)
        (All-filter_by _ (λ n. has_notification n.id chosen) db.notifications
          (FoundIn-self db.notifications))

  -- The rows that a claim returns stand in the table that it leaves.
  claim_rows_stand :
      (db : Database)
      → All (λ n. Row Anything n.id (claim_rows remote now db).1) (claim_rows remote now db).0
  unfolding claim_rows
  claim_rows_stand db = elim (Option-cases (remote.query_error claim_update)) [
    | inr (e, refused_it) ↦ rw (refused_it, claim_rows) tt
    | inl made ↦ elim (Option-cases (remote.query_error claim_answer)) [
      | inr (e, lost) ↦ rw (made, lost, claim_rows) tt
      | inl answered ↦ rw (made, answered, claim_rows) (claimed_rows claim_limit db)
    ]
  ]

  -- Where the database takes every update that marks a row failed, whatever other statements it refuses
  -- and whatever FCM answers, each row that the claim of a tick returned is sent or failed after the
  -- tick: none of them is left in the status sending.
  pub tick_closes :
      (db : Database) (s : State)
      → ((id : GoString) → remote.query_error (failed_update id) ≡ none)
      → All (λ n. Row IsClosed n.id (tick remote decode now (db, s)).0) (claim_rows remote now db).0
  unfolding tick
  tick_closes db s answers =
      handle_all_closes (claim_rows remote now db).0 ((claim_rows remote now db).1, s) answers
        (claim_rows_stand db)
