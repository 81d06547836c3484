-- ===== src/Notifications/Delivery.antt =====
-- What reaches FCM in a multicast.
use memberclass_backend_gola.Notifications.{Notification, update_progress, Database}
use memberclass_backend_gola.Notifications.Worker.{
  closed_as_sent, send_to, attempted, delete_token, counted, progress_update, sent_update,
  recipients_query, Remote, BatchResponse, send_batches, Progress, batch_size, answer, send_batch,
  send_multicast, drop_dead_tokens, finish, start_batch, total_batches, first_progress,
}
use memberclass_backend_gola.Notifications.Recipients.{Recipient, resolve_recipients}
use memberclass_backend_gola.Common.{
  Option-cases, ℕ, zero, suc, ◌+◌, ◌*◌, ◌≤◌, ◌≡◌, refl, sym, ap, ◌∙◌, inl, inr, false, ◌&&◌, Option,
  none, some, List, [], ◌∷◌, ◌++◌, map, append-nil, append_assoc, arith, ltb, leb, ◌==◌, Bool-cases,
  ==_iff, leb→le, length, take, drop, All, flat_map, length-take, length-drop, take-append-drop,
  GoString, drop-drop, drop_all,
}

-- FCM answers every call, and then it has received the tokens; of each token it counts a success or a
-- failure. `received s` is what it has received until state s.
pub record IsFcm (remote : Remote) (received : remote.State → List (List GoString)) : Type 0 where
  pub send_answered :
      (c : remote.Client) (title body : GoString) (tokens : List GoString) (s : remote.State)
      → (response : BatchResponse) × (s' : remote.State) × (remote.send_each c title body tokens s
          ≡ (answer response, s'))
        × (received s' ≡ received s ++ tokens ∷ [])
        × (response.success_count + response.failure_count ≡ length tokens)

abbrev tokens_of : List Recipient → List GoString
tokens_of rs = map (λ r. r.token) rs

tokens_of-append : (xs ys : List Recipient) → tokens_of (xs ++ ys) ≡ tokens_of xs ++ tokens_of ys
tokens_of-append [] ys = refl
tokens_of-append (x ∷ xs) ys = rw (tokens_of-append xs ys)

length-tokens_of : (rs : List Recipient) → length (tokens_of rs) ≡ length rs
length-tokens_of [] = refl
length-tokens_of (r ∷ rs) = omega (arith, length-tokens_of rs)

-- The calls that deliver to some recipients: no more than 500 tokens each, and every token once, in
-- order.
pub record Delivers (calls : List (List GoString)) (rs : List Recipient) : Type 0 where
  pub small : All (λ c. length c ≤ batch_size) calls
  pub all_tokens : flat_map (λ c. c) calls ≡ tokens_of rs

Delivers-none : (rs : List Recipient) → rs ≡ [] → Delivers [] rs
Delivers-none rs e = record { small = tt; all_tokens = rw e refl }

-- A batch before the calls for the rest.
Delivers-next :
    (calls : List (List GoString)) (i : ℕ) (rs : List Recipient)
    → Delivers calls (drop (i + batch_size) rs)
    → Delivers (tokens_of (take batch_size (drop i rs)) ∷ calls) (drop i rs)
Delivers-next calls i rs d =
    let chunk = take batch_size (drop i rs) in
    let whole = take-append-drop batch_size (drop i rs) in
    record {
      small = (omega (arith, length-tokens_of chunk, length-take batch_size (drop i rs)), d.small);
      all_tokens =
          ap (λ t. tokens_of chunk ++ t) d.all_tokens
          ∙ ap (λ t. tokens_of chunk ++ tokens_of t) (sym (drop-drop i batch_size rs))
          ∙ sym (tokens_of-append chunk (drop batch_size (drop i rs)))
          ∙ ap tokens_of whole;
    }

module _ (remote : Remote) {received : remote.State → List (List GoString)}
    (lawful : IsFcm remote received) where
  open remote use {State, Client}

  -- What a run of the loop from progress p on does for the recipients rs.
  Done : Progress remote → List Recipient → Option GoString × Progress remote → Type 0
  Done p rs (e, p') =
      (e ≡ none)
      × (calls : List (List GoString)) × (received p'.state ≡ received p.state ++ calls)
      × Delivers calls rs
      × (p'.sent + p'.failed ≡ p.sent + p.failed + length rs)

  Done-already : (p : Progress remote) (rs : List Recipient) → rs ≡ [] → Done p rs (none, p)
  unfolding Done
  Done-already p rs e =
      (refl, [], sym (append-nil (received p.state)), Delivers-none rs e, rw e (omega arith))

  send_batch_answered :
      (sender : Client) (title body : GoString) (n : Notification) (now batch_idx : ℕ)
      (chunk : List Recipient) (p : Progress remote)
      → (p' : Progress remote) × (send_batch remote sender title body n now batch_idx chunk p
          ≡ (none, p'))
        × (received p'.state ≡ received p.state ++ tokens_of chunk ∷ [])
        × (p'.sent + p'.failed ≡ p.sent + p.failed + length chunk)
  unfolding send_batch
  send_batch_answered sender title body n now batch_idx chunk p =
      let (response, s', sent_to, got, total) =
        lawful.send_answered sender title body (tokens_of chunk) p.state in
      let sent = p.sent + response.success_count in
      let failed = p.failed + response.failure_count in
      (
        record {
          sent = sent;
          failed = failed;
          db =
              attempted remote (progress_update n.id batch_idx)
                (update_progress n.id sent failed batch_idx now)
                (drop_dead_tokens (delete_token remote n) response.responses (tokens_of chunk)
                  p.db);
          state = s';
        },
        rw sent_to refl,
        got,
        omega (arith, total, length-tokens_of chunk),
      )

  send_batches_next :
      (sender : Client) (title body : GoString) (n : Notification) (now : ℕ)
      (recipients : List Recipient) (rounds batch_idx : ℕ) (p p' : Progress remote)
      → leb (length recipients) (batch_idx * batch_size) ≡ false
      → send_batch remote sender title body n now batch_idx
          (take batch_size (drop (batch_idx * batch_size) recipients))
          p
        ≡ (none, p')
      → send_batches remote sender title body n now recipients (suc rounds) batch_idx p
        ≡ send_batches remote sender title body n now recipients rounds (suc batch_idx) p'
  unfolding send_batches
  send_batches_next sender title body n now recipients rounds batch_idx p p' more step = rw more (
      ap
        (λ r. elim r.0 as (λ x. Option GoString × Progress remote) [
          | none ↦ send_batches remote sender title body n now recipients rounds (suc batch_idx) r.1
          | some text ↦ (some text, r.1)
        ])
        step)

  send_batches-Done :
      (sender : Client) (title body : GoString) (n : Notification) (now : ℕ)
      (recipients : List Recipient) (rounds batch_idx : ℕ) (p : Progress remote)
      → length recipients ≤ (batch_idx + rounds) * batch_size
      → Done p
          (drop (batch_idx * batch_size) recipients)
          (send_batches remote sender title body n now recipients rounds batch_idx p)
  unfolding Done send_batches
  send_batches-Done sender title body n now recipients zero batch_idx p h =
      Done-already p (drop (batch_idx * batch_size) recipients)
        (drop_all (batch_idx * batch_size) recipients (omega (arith, h)))
  send_batches-Done sender title body n now recipients (suc rounds) batch_idx p h =
      let i = batch_idx * batch_size in
      let chunk = take batch_size (drop i recipients) in
      elim (Bool-cases (leb (length recipients) i)) [
        | inl past ↦
            rw past (Done-already p (drop i recipients) (drop_all i recipients (leb→le _ _ past)))
        | inr more ↦
            let (p1, step, got, sum1) =
              send_batch_answered sender title body n now batch_idx chunk p in
            let (e, calls, log, delivered, sum) =
              send_batches-Done sender title body n now recipients rounds (suc batch_idx) p1
                (omega (arith, h)) in
            let next : suc batch_idx * batch_size ≡ i + batch_size = omega arith in
            rw
              (send_batches_next sender title body n now recipients rounds batch_idx p p1 more step)
              (
                e,
                tokens_of chunk ∷ calls,
                log
                    ∙ ap (λ t. t ++ calls) got
                    ∙ append_assoc (received p.state) (tokens_of chunk ∷ []) calls,
                Delivers-next calls i recipients (rw (← next) delivered),
                omega (
                  arith,
                  sum,
                  sum1,
                  length-take batch_size (drop i recipients),
                  length-drop i recipients,
                  length-drop (suc batch_idx * batch_size) recipients,
                ),
              )
      ]

  closed_as_sent-state :
      (n : Notification) (sent_count failed_count now : ℕ) (db : Database) (s : State)
      → (closed_as_sent remote n sent_count failed_count now db s).1.1 ≡ s
  unfolding closed_as_sent
  closed_as_sent-state n sent_count failed_count now db s =
      elim (Option-cases (remote.query_error (sent_update n.id))) [
        | inl answered ↦ rw (answered, closed_as_sent) refl
        | inr (e, refused_it) ↦ rw (refused_it, closed_as_sent) refl
      ]

  finish-state :
      (n : Notification) (now : ℕ) (r : Option GoString × Progress remote)
      → (finish remote n now r).1.1 ≡ r.1.state
  unfolding finish
  finish-state n now (some text, p) = refl
  finish-state n now (none, p) = elim (Bool-cases ((p.sent == 0) && ltb 0 p.failed)) [
    | inl bad ↦ rw bad refl
    | inr good ↦ rw good (closed_as_sent-state n p.sent p.failed now p.db p.state)
  ]

  send_to-Delivers :
      (sender : Client) (n : Notification) (title body : GoString) (now : ℕ) (rs : List Recipient)
      (db : Database) (s : State)
      → let (e, (db', s')) = send_to remote sender n title body now rs db s in
        (calls : List (List GoString)) × (received s' ≡ received s ++ calls)
        × Delivers calls (drop (start_batch n.last_batch_index * batch_size) rs)
  unfolding send_to Done
  send_to-Delivers sender n title body now rs db s =
      let start = start_batch n.last_batch_index in
      elim (Bool-cases (length rs == 0)) [
        | inl nobody ↦
            let nothing =
              drop_all (start * batch_size) rs (omega (arith, (==_iff (length rs) 0).0 nobody)) in
            let same = closed_as_sent-state n 0 0 now (counted remote n (length rs) now db) s in
            rw nobody (
              [],
              ap received same ∙ sym (append-nil (received s)),
              Delivers-none (drop (start * batch_size) rs) nothing,
            )
        | inr some_rs ↦
            let p = first_progress remote n (length rs) now db s in
            let (e, calls, log, delivered, sum) =
              send_batches-Done sender title body n now rs (total_batches remote rs) start p
                (omega arith) in
            let same =
              finish-state n now (
                send_batches remote sender title body n now rs (total_batches remote rs) start p) in
            rw some_rs (calls, ap received same ∙ log, delivered)
      ]

  -- While FCM answers, a multicast whose query of the recipients is answered sends those behind the last
  -- finished batch, each token once, in order and in calls of at most 500, whatever other statements
  -- the database refuses.
  pub send_multicast-Delivers :
      (sender : Client) (n : Notification) (title body : GoString) (now : ℕ) (db : Database)
      (s : State)
      → remote.query_error (recipients_query n.id) ≡ none
      → let (e, (db', s')) = send_multicast remote sender n title body now db s in
        (calls : List (List GoString)) × (received s' ≡ received s ++ calls)
        × Delivers calls
            (drop (start_batch n.last_batch_index * batch_size) (resolve_recipients db n))
  unfolding send_multicast
  send_multicast-Delivers sender n title body now db s answered =
      rw (answered, send_multicast)
        (send_to-Delivers sender n title body now (resolve_recipients db n) db s)
