-- ===== src/Transcription/Enqueued.antt =====
-- What the enqueueing of selected lessons leaves.
use memberclass_backend_gola.Common.{
  append_assoc, ℕ, suc, ◌≡◌, refl, sym, ap, inl, inr, List, [], ◌∷◌, append-nil, ltb, Bool-cases,
  Option-cases, is_some, length, All, GoString, ◌++◌,
}
use mathlib.Core.Path.{subst}
use memberclass_backend_gola.Transcription.Jobs.{Jobs}
use memberclass_backend_gola.Transcription.Enqueue.{
  LessonRow, Enqueueing, ProcessLessonsResponse, Backend, Processed, response, failed_with_status,
  lessons_by_ids, found_lesson, enqueue_payload, enqueue_lesson, enqueue_found, enqueue_ids,
  response_of, when_enabled, is_enabled, enqueue_selected_lessons, nothing_yet, unknown_reason,
  done_reason, marshal_reason, insert_reason, payload_of_lesson,
}
use memberclass_backend_gola.Transcription.Accounted.{
  nothing_asked, IsAccounted, IsEligible, IsRow, IsOwned, skip-IsAccounted, accept-IsAccounted,
  found_lesson-All, All-IsRow, lessons_by_ids-IsOwned,
}

module _ (b : Backend) (tenant : GoString) (rows : List LessonRow) (before : Jobs) where
  nothing-IsAccounted : IsAccounted tenant rows before [] (nothing_yet b before)
  nothing-IsAccounted = record {
    fresh = [];
    table = sym (append-nil before);
    ids = refl;
    waiting = tt;
    all_listed = nothing_asked;
    eligible = tt;
  }

  enqueue_lesson-IsAccounted :
      (id : GoString) (n : ℕ) (asked : List GoString) (l : LessonRow) (e : Enqueueing)
      → ((job_id : GoString) → IsEligible tenant rows (record { lesson_id = id; job_id = job_id }))
      → IsAccounted tenant rows before asked e
      → IsAccounted tenant rows before (asked ++ id ∷ []) (enqueue_lesson b tenant id n l e)
  unfolding enqueue_lesson enqueue_payload
  enqueue_lesson-IsAccounted id n asked l e good h =
      elim (Option-cases (b.marshal (payload_of_lesson tenant l))) [
        | inl none_made ↦
            rw none_made (skip-IsAccounted tenant rows before id marshal_reason asked e h)
        | inr (payload, made) ↦ rw made (elim (Bool-cases (b.insert_fails n)) [
          | inl fails ↦ rw fails (skip-IsAccounted tenant rows before id insert_reason asked e h)
          | inr goes ↦ rw goes (
              accept-IsAccounted tenant rows before id (b.uuid n) payload b.now asked e
                (good (b.uuid n)) h)
        ])
      ]

  enqueue_found-IsAccounted :
      (id : GoString) (n : ℕ) (asked : List GoString) (listed : List LessonRow) (e : Enqueueing)
      → All (IsOwned tenant rows) listed
      → IsAccounted tenant rows before asked e
      → IsAccounted tenant rows before
          (asked ++ id ∷ [])
          (enqueue_found b tenant id n (found_lesson id listed) e)
  unfolding enqueue_found IsOwned
  enqueue_found-IsAccounted id n asked listed e owned h =
      elim (Option-cases (found_lesson id listed)) [
        | inl unknown ↦ rw unknown (skip-IsAccounted tenant rows before id unknown_reason asked e h)
        | inr (l, known) ↦ rw known (elim (Bool-cases l.transcription_completed) [
          | inl done ↦ rw done (skip-IsAccounted tenant rows before id done_reason asked e h)
          | inr to_do ↦
              let (mine, named) = found_lesson-All (IsOwned tenant rows) id listed l owned known in
              rw to_do (
                enqueue_lesson-IsAccounted id n asked l e
                  (λ job_id. record {
                    lesson = l;
                    stored = mine.0;
                    named = named;
                    owned = mine.1;
                    on_bunny = mine.2;
                    to_do = to_do;
                  })
                  h)
        ])
      ]

  enqueue_ids-IsAccounted :
      (listed : List LessonRow) (n : ℕ) (asked ids : List GoString) (e : Enqueueing)
      → All (IsOwned tenant rows) listed
      → IsAccounted tenant rows before asked e
      → IsAccounted tenant rows before (asked ++ ids) (enqueue_ids b tenant listed n ids e)
  unfolding enqueue_ids
  enqueue_ids-IsAccounted listed n asked [] e owned h =
      subst (λ k. IsAccounted tenant rows before k e) (sym (append-nil asked)) h
  enqueue_ids-IsAccounted listed n asked (id ∷ ids) e owned h =
      subst (λ k. IsAccounted tenant rows before k (enqueue_ids b tenant listed n (id ∷ ids) e))
        (append_assoc asked (id ∷ []) ids)
        (enqueue_ids-IsAccounted listed (suc n) (asked ++ id ∷ []) ids
          (enqueue_found b tenant id n (found_lesson id listed) e) owned
          (enqueue_found-IsAccounted id n asked listed e owned h))

  parts_or : ℕ → ProcessLessonsResponse → Jobs → Processed → ℕ × ProcessLessonsResponse × Jobs
  parts_or s a js (response t c ks) = (t, c, ks)
  parts_or s a js (failed_with_status t text ks) = (s, a, js)

  responds :
      (ids : List GoString) (status : ℕ) (answer : ProcessLessonsResponse) (jobs : Jobs)
      → response_of b tenant []
          (enqueue_ids b tenant (lessons_by_ids tenant ids rows) 0 ids (nothing_yet b before))
        ≡ response status answer jobs
      → (status ≡ 202)
        × (answer.enqueued_count ≡ length answer.enqueued)
        × (answer.success ≡ ltb 0 (length answer.enqueued))
        × IsAccounted tenant rows before ids
            (record { enqueued = answer.enqueued; skipped = answer.skipped; jobs = jobs })
  unfolding response_of parts_or
  responds ids status answer jobs e =
      let done =
        enqueue_ids-IsAccounted (lessons_by_ids tenant ids rows) 0 [] ids (nothing_yet b before)
          (lessons_by_ids-IsOwned tenant ids rows rows
            (All-IsRow (λ l. IsRow l rows) rows (λ l r. r)))
          nothing-IsAccounted in
      let same = ap (parts_or 202 answer jobs) e in subst Answers same (refl, refl, refl, done)
    where
      Answers : ℕ × ProcessLessonsResponse × Jobs → Type 0
      Answers (s, a, js) =
          (s ≡ 202)
          × (a.enqueued_count ≡ length a.enqueued)
          × (a.success ≡ ltb 0 (length a.enqueued))
          × IsAccounted tenant rows before ids
              (record { enqueued = a.enqueued; skipped = a.skipped; jobs = js })

  -- Whatever fails, where enqueueing the selected lessons gives a response, its status is 202, the
  -- requested ids are those of its two lists, mixed and each in the order of the request, it counts those enqueued and succeeds if there are any; those
  -- enqueued stand for rows of the tenant with a video of Bunny that is not transcribed; and the table
  -- of jobs has gained one waiting job with three tries for each of them, in their order.
  pub enqueue_selected_lessons-IsAccounted :
      (ids : List GoString) (status : ℕ) (answer : ProcessLessonsResponse) (jobs : Jobs)
      → enqueue_selected_lessons b tenant ids rows before ≡ response status answer jobs
      → (status ≡ 202)
        × (answer.enqueued_count ≡ length answer.enqueued)
        × (answer.success ≡ ltb 0 (length answer.enqueued))
        × IsAccounted tenant rows before ids
            (record { enqueued = answer.enqueued; skipped = answer.skipped; jobs = jobs })
  unfolding enqueue_selected_lessons when_enabled
  enqueue_selected_lessons-IsAccounted ids status answer jobs e =
      elim (Option-cases (b.tenant_row tenant)) [
        | inl unknown ↦ cc (rw unknown at e)
        | inr (t, known) ↦ elim (Bool-cases (is_some t.ai_enabled)) [
          | inr unset ↦ cc (rw (known, unset) at e)
          | inl set ↦ elim (Bool-cases (is_enabled b t)) [
            | inr disabled ↦ cc (rw (known, set, disabled) at e)
            | inl enabled ↦ elim (Bool-cases b.list_fails) [
              | inl fails ↦ cc (rw (known, set, enabled, fails) at e)
              | inr lists ↦ responds ids status answer jobs (rw (known, set, enabled, lists) at e)
            ]
          ]
        ]
      ]
