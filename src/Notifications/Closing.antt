-- ===== src/Notifications/Closing.antt =====
-- A tick keeps every stable property of every row.
use memberclass_backend_gola.Notifications.Render.{render_for_push}
use memberclass_backend_gola.Notifications.Recipients.{resolve_recipients, Recipient}
use memberclass_backend_gola.Notifications.Worker.{
  closed_as_sent, send_to, delete_token, progress_update, sent_update, recipients_query,
  failed_update, instance_query, Remote, with_instance, with_client, handle, finish, closed_after,
  send_batches, send_multicast, batch_sent, Reply, dispatch, Progress, send_batch, refused,
  BatchResponse, total_batches, batch_size, answer, start_batch, counted, drop_dead_tokens,
  first_progress,
}
use memberclass_backend_gola.Notifications.{
  mark_failed, update_progress, Notification, Status, Database, sent, failed, get_tenant_instance,
}
use memberclass_backend_gola.Notifications.Rows.{
  attempted-Row, delete_token-Row, IsStable, Row, mark_sent-Row, mark_failed-Row, counted-Row,
  update_progress-Row, drop_dead_tokens-Row,
}
use memberclass_backend_gola.Common.{
  ℕ, zero, suc, ◌+◌, ◌*◌, ◌≡◌, ap, ◌∙◌, inl, inr, Bool, true, false, ◌&&◌, Option, none, some, List,
  map, ltb, leb, ◌==◌, Bool-cases, Option-cases, length, take, drop, GoString,
}

abbrev pub is_final : Status → Bool
is_final sent = true
is_final failed = true
is_final _ = false

abbrev pub IsClosed : Notification → Type 0
IsClosed n = is_final n.status ≡ true

abbrev pub Anything : Notification → Type 0
Anything n = Unit

pub Anything-IsStable : IsStable Anything
Anything-IsStable = record { keeps = λ n m e p. p; on_sent = λ m e. tt; on_failed = λ m e. tt }

pub IsClosed-IsStable : IsStable IsClosed
IsClosed-IsStable = record {
  keeps = λ n m e p. ap is_final e ∙ p;
  on_sent = λ m e. ap is_final e;
  on_failed = λ m e. ap is_final e;
}

module _ (remote : Remote) (decode : GoString → Option (List (GoString × GoString))) (now : ℕ) where
  open remote use {State, Client}

  module _ (P : Notification → Type 0) (stable : IsStable P) (id : GoString) where
    batch_sent-Row :
        (n : Notification) (batch_idx : ℕ) (tokens : List GoString) (p : Progress remote)
        (reply : Reply BatchResponse × State)
        → Row P id p.db
        → Row P id (batch_sent remote n now batch_idx tokens p reply).1.db
    unfolding batch_sent
    batch_sent-Row n batch_idx tokens p (refused text, s) row = row
    batch_sent-Row n batch_idx tokens p (answer response, s) row =
        attempted-Row P stable id remote (progress_update n.id batch_idx)
          (update_progress n.id (p.sent + response.success_count)
            (p.failed + response.failure_count) batch_idx now)
          (drop_dead_tokens (delete_token remote n) response.responses tokens p.db)
          (update_progress-Row P stable id n.id (p.sent + response.success_count)
            (p.failed + response.failure_count) batch_idx now _)
          (drop_dead_tokens-Row P stable id (delete_token remote n)
            (delete_token-Row P stable id remote n) response.responses tokens p.db row)

    pub send_batches-Row :
        (sender : Client) (title body : GoString) (n : Notification) (rs : List Recipient)
        (rounds batch_idx : ℕ) (p : Progress remote)
        → Row P id p.db
        → Row P id (send_batches remote sender title body n now rs rounds batch_idx p).1.db
    unfolding send_batches send_batch
    send_batches-Row sender title body n rs zero batch_idx p row = row
    send_batches-Row sender title body n rs (suc rounds) batch_idx p row =
        let chunk = take batch_size (drop (batch_idx * batch_size) rs) in
        let step = send_batch remote sender title body n now batch_idx chunk p in
        let row1 : Row P id step.1.db =
          batch_sent-Row n batch_idx (map (λ r. r.token) chunk) p
            (remote.send_each sender title body (map (λ r. r.token) chunk) p.state) row in
        let ih = send_batches-Row sender title body n rs rounds (suc batch_idx) step.1 row1 in
        elim (Bool-cases (leb (length rs) (batch_idx * batch_size))) [
          | inl past ↦ rw past row
          | inr more ↦ elim (Option-cases step.0) [
            | inl fine ↦ rw (more, fine) ih
            | inr (text, bad) ↦ rw (more, bad) row1
          ]
        ]

    closed_as_sent-Row :
        (n : Notification) (sent_count failed_count : ℕ) (db : Database) (s : State)
        → Row P id db
        → Row P id (closed_as_sent remote n sent_count failed_count now db s).1.0
    unfolding closed_as_sent
    closed_as_sent-Row n sent_count failed_count db s row =
        elim (Option-cases (remote.query_error (sent_update n.id))) [
          | inl answered ↦
              rw (answered, closed_as_sent)
                (mark_sent-Row P stable id n.id sent_count failed_count now db row)
          | inr (e, refused_it) ↦ rw (refused_it, closed_as_sent) row
        ]

    finish-Row :
        (n : Notification) (r : Option GoString × Progress remote)
        → Row P id r.1.db
        → Row P id (finish remote n now r).1.0
    unfolding finish
    finish-Row n (some text, p) row = row
    finish-Row n (none, p) row = elim (Bool-cases ((p.sent == 0) && ltb 0 p.failed)) [
      | inl bad ↦ rw bad row
      | inr good ↦ rw good (closed_as_sent-Row n p.sent p.failed p.db p.state row)
    ]

    send_to-Row :
        (sender : Client) (n : Notification) (title body : GoString) (rs : List Recipient)
        (db : Database) (s : State)
        → Row P id db
        → Row P id (send_to remote sender n title body now rs db s).1.0
    unfolding send_to
    send_to-Row sender n title body rs db s row =
        let row1 = counted-Row P stable id remote n (length rs) now db row in
        elim (Bool-cases (length rs == 0)) [
          | inl nobody ↦
              rw nobody (closed_as_sent-Row n 0 0 (counted remote n (length rs) now db) s row1)
          | inr some_rs ↦
              let p = first_progress remote n (length rs) now db s in
              let start = start_batch n.last_batch_index in
              rw some_rs (
                finish-Row n
                  (send_batches remote sender title body n now rs (total_batches remote rs) start p)
                  (send_batches-Row sender title body n rs (total_batches remote rs) start p row1))
        ]

    send_multicast-Row :
        (sender : Client) (n : Notification) (title body : GoString) (db : Database) (s : State)
        → Row P id db
        → Row P id (send_multicast remote sender n title body now db s).1.0
    unfolding send_multicast
    send_multicast-Row sender n title body db s row =
        elim (Option-cases (remote.query_error (recipients_query n.id))) [
          | inl answered ↦
              rw (answered, send_multicast)
                (send_to-Row sender n title body (resolve_recipients db n) db s row)
          | inr (e, refused_it) ↦ rw (refused_it, send_multicast) row
        ]

    with_client-Row :
        (n : Notification) (text : GoString × GoString) (db : Database) (c : Reply Client × State)
        → Row P id db
        → Row P id (with_client remote n text now db c).1.0
    unfolding with_client
    with_client-Row n text db (refused e, s) row = row
    with_client-Row n (title, body) db (answer sender, s) row =
        send_multicast-Row sender n title body db s row

    with_instance-Row :
        (n : Notification) (text : GoString × GoString) (o : Option GoString) (db : Database)
        (s : State)
        → Row P id db
        → Row P id (with_instance remote n text now o db s).1.0
    unfolding with_instance
    with_instance-Row n text none db s row = row
    with_instance-Row n text (some name) db s row =
        with_client-Row n text db (remote.messaging name s) row

    closed_after-Row :
        (n : Notification) (r : Option GoString × (Database × State))
        → Row P id r.1.0
        → Row P id (closed_after remote n now r).0
    unfolding closed_after
    closed_after-Row n (none, (db, s)) row = row
    closed_after-Row n (some text, (db, s)) row =
        attempted-Row P stable id remote (failed_update n.id) (mark_failed n.id text now) db
          (mark_failed-Row P stable id n.id text now db) row

    dispatch-Row :
        (n : Notification) (db : Database) (s : State)
        → Row P id db
        → Row P id (dispatch remote decode n now db s).1.0
    unfolding dispatch
    dispatch-Row n db s row = elim (Option-cases (remote.query_error (instance_query n.id))) [
      | inl answered ↦
          rw (answered, dispatch)
            (with_instance-Row n (render_for_push decode n) (get_tenant_instance n.tenant_id db) db
              s row)
      | inr (e, refused_it) ↦ rw (refused_it, dispatch) row
    ]

    pub handle-Row :
        (n : Notification) (here : Database × State)
        → Row P id here.0
        → Row P id (handle remote decode now n here).0
    unfolding handle
    handle-Row n (db, s) row =
        closed_after-Row n (dispatch remote decode n now db s) (dispatch-Row n db s row)
