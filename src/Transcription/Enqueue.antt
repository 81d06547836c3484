-- ===== src/Transcription/Enqueue.antt =====
-- Enqueueing of lessons: internal/features/workers/transcription/process_lessons.go, with the queries on
-- lessons of sql.go and sqlInsertJob. A lesson's row carries the tenant of its Vitrine, which the
-- queries join, and a list of rows is in the order of the query. Messages are in UTF-8.
use memberclass_backend_gola.Common.{
  ℕ, suc, Bool, false, not, ◌&&◌, Option, none, some, List, [], ◌∷◌, ◌++◌, ltb, if◌then◌else◌,
  is_some, length, filter_by, GoString, str, ◌===◌, has_text, index_of,
}
use memberclass_backend_gola.Common.Decimal.{format_nat}
use memberclass_backend_gola.Transcription.Jobs.{Jobs, insert_job}
use memberclass_backend_gola.Transcription.Pipeline.{JobPayload, TenantRow}

pub record LessonRow : Type 0 where
  pub id : GoString
  pub name : GoString
  pub media_url : GoString
  pub course_id : GoString
  pub tenant_id : GoString
  pub published : Bool
  pub transcription_completed : Bool

pub record EnqueuedLesson : Type 0 where
  pub lesson_id : GoString
  pub job_id : GoString

pub record SkippedLesson : Type 0 where
  pub lesson_id : GoString
  pub reason : GoString

-- What the loops carry: the two lists of the answer, and the table of jobs.
pub record Enqueueing : Type 0 where
  pub enqueued : List EnqueuedLesson
  pub skipped : List SkippedLesson
  pub jobs : Jobs

pub record ProcessLessonsResponse : Type 0 where
  pub success : Bool
  pub message : GoString
  pub tenant_id : GoString
  pub enqueued : List EnqueuedLesson
  pub skipped : List SkippedLesson
  pub enqueued_count : ℕ

-- The tenant's row, where the scan succeeds; whether the query of lessons fails; json.Marshal; the clock;
-- and, by the number of lessons handled so far, the UUID that is drawn and whether the insert fails.
pub record Backend : Type 0 where
  pub tenant_row : GoString → Option TenantRow
  pub list_fails : Bool
  pub marshal : JobPayload → Option GoString
  pub now : ℕ
  pub uuid : ℕ → GoString
  pub insert_fails : ℕ → Bool

-- An error with the status that is answered; of a wrapped error the text before it.
pub data Processed : Type 0 where
  response : ℕ → ProcessLessonsResponse → Jobs → Processed
  failed_with_status : ℕ → GoString → Jobs → Processed

abbrev pub bunny_host : GoString
bunny_host = str "https://iframe.mediadelivery.net"

unfoldable pub is_bunny : GoString → Bool
unfolding index_of
is_bunny url = is_some (index_of bunny_host url)

-- sqlSelectLessonsByIDs
unfoldable pub lessons_by_ids : GoString → List GoString → List LessonRow → List LessonRow
unfolding is_bunny ◌===◌
lessons_by_ids tenant ids rows =
    filter_by (λ l. has_text l.id ids && ((l.tenant_id === tenant) && is_bunny l.media_url)) rows

-- sqlSelectUnprocessedLessons
unfoldable pub unprocessed_lessons : GoString → List LessonRow → List LessonRow
unfolding is_bunny ◌===◌
unprocessed_lessons tenant rows =
    filter_by
      (λ l.
        ((l.tenant_id === tenant) && l.published)
        && (not l.transcription_completed && is_bunny l.media_url))
      rows

-- `found[id]`: of rows with one id, the map keeps the last.
unfoldable pub found_lesson : GoString → List LessonRow → Option LessonRow
unfolding ◌===◌
found_lesson id [] = none
found_lesson id (l ∷ ls) = elim (found_lesson id ls) [
  | none ↦ if l.id === id then some l else none
  | some m ↦ some m
]

abbrev pub unknown_reason : GoString
unknown_reason =
    str "lesson n"
    ++ (195 ∷ 163 ∷ str "o encontrada para este tenant ou mediaUrl n"
        ++ (195 ∷ 163 ∷ str "o " ++ (195 ∷ 169 ∷ str " Bunny")))

abbrev pub done_reason : GoString
done_reason = str "j" ++ (195 ∷ 161 ∷ str " transcrita (transcriptionCompleted=true)")

abbrev pub marshal_reason : GoString
marshal_reason = str "erro interno ao serializar payload"

abbrev pub insert_reason : GoString
insert_reason = str "erro ao gravar job"

unfoldable pub skip : GoString → GoString → Enqueueing → Enqueueing
skip id reason e = record e {
  skipped = e.skipped ++ record { lesson_id = id; reason = reason } ∷ [];
}

unfoldable pub accept : GoString → GoString → GoString → GoString → ℕ → Enqueueing → Enqueueing
unfolding insert_job
accept tenant id job_id payload now e = record e {
  enqueued = e.enqueued ++ record { lesson_id = id; job_id = job_id } ∷ [];
  jobs = insert_job job_id tenant 0 payload 3 now e.jobs;
}

abbrev pub payload_of_lesson : GoString → LessonRow → JobPayload
payload_of_lesson tenant l = record {
  lesson_id = l.id;
  tenant_id = tenant;
  video_url = l.media_url;
  course_id = l.course_id;
  title = l.name;
}

module _ (b : Backend) where
  unfoldable pub enqueue_payload :
      GoString → GoString → ℕ → Option GoString → Enqueueing → Enqueueing
  unfolding skip accept
  enqueue_payload tenant id n none e = skip id marshal_reason e
  enqueue_payload tenant id n (some payload) e =
      if b.insert_fails n
      then skip id insert_reason e
      else accept tenant id (b.uuid n) payload b.now e

  -- One turn of either loop, from the payload on.
  unfoldable pub enqueue_lesson : GoString → GoString → ℕ → LessonRow → Enqueueing → Enqueueing
  unfolding enqueue_payload
  enqueue_lesson tenant id n l e =
      enqueue_payload tenant id n (b.marshal (payload_of_lesson tenant l)) e

  unfoldable pub enqueue_found :
      GoString → GoString → ℕ → Option LessonRow → Enqueueing → Enqueueing
  unfolding enqueue_lesson skip
  enqueue_found tenant id n none e = skip id unknown_reason e
  enqueue_found tenant id n (some l) e =
      if l.transcription_completed then skip id done_reason e else enqueue_lesson tenant id n l e

  unfoldable pub enqueue_ids :
      GoString → List LessonRow → ℕ → List GoString → Enqueueing → Enqueueing
  unfolding enqueue_found found_lesson
  enqueue_ids tenant rows n [] e = e
  enqueue_ids tenant rows n (id ∷ ids) e =
      enqueue_ids tenant rows (suc n) ids (enqueue_found tenant id n (found_lesson id rows) e)

  unfoldable pub enqueue_rows : GoString → ℕ → List LessonRow → Enqueueing → Enqueueing
  unfolding enqueue_lesson
  enqueue_rows tenant n [] e = e
  enqueue_rows tenant n (l ∷ ls) e =
      enqueue_rows tenant (suc n) ls (enqueue_lesson tenant l.id n l e)

  -- The answer of either loop, with what follows the number in its message.
  unfoldable pub response_of : GoString → GoString → Enqueueing → Processed
  response_of tenant suffix e =
      response 202
        (record {
          success = ltb 0 (length e.enqueued);
          message =
              if ltb 0 (length e.enqueued)
              then format_nat (length e.enqueued)
                ++ (str " job(s) de transcri"
                    ++ (195 ∷ 167 ∷ 195 ∷ 163 ∷ str "o enfileirado(s)" ++ suffix))
              else str "nenhuma lesson eleg" ++ (195 ∷ 173 ∷ str "vel foi enfileirada");
          tenant_id = tenant;
          enqueued = e.enqueued;
          skipped = e.skipped;
          enqueued_count = length e.enqueued;
        })
        e.jobs

  abbrev pub nothing_yet : Jobs → Enqueueing
  nothing_yet jobs = record { enqueued = []; skipped = []; jobs = jobs }

  abbrev pub is_enabled : TenantRow → Bool
  is_enabled t = elim t.ai_enabled [ none ↦ false | some enabled ↦ enabled ]

  -- A NULL in aiEnabled fails the scan into a bool.
  unfoldable pub when_enabled : GoString → Option TenantRow → Jobs → Processed → Processed
  when_enabled tenant none jobs go =
      failed_with_status 404 (str "tenant n" ++ (195 ∷ 163 ∷ str "o encontrado")) jobs
  when_enabled tenant (some t) jobs go =
      if not (is_some t.ai_enabled)
      then failed_with_status 404 (str "tenant n" ++ (195 ∷ 163 ∷ str "o encontrado")) jobs
      else (if is_enabled t
          then go
          else failed_with_status 403
              (str "IA n"
                ++ (195 ∷ 163 ∷ str "o est" ++ (195 ∷ 161 ∷ str " habilitada para este tenant")))
              jobs)

  unfoldable pub enqueue_selected_lessons :
      GoString → List GoString → List LessonRow → Jobs → Processed
  unfolding when_enabled enqueue_ids lessons_by_ids response_of
  enqueue_selected_lessons tenant ids rows jobs = when_enabled tenant (b.tenant_row tenant) jobs (
      if b.list_fails
      then failed_with_status 500 (str "listar lessons") jobs
      else response_of tenant []
          (enqueue_ids tenant (lessons_by_ids tenant ids rows) 0 ids (nothing_yet jobs)))

  unfoldable pub enqueue_pending : GoString → List LessonRow → Jobs → Processed
  unfolding enqueue_rows response_of
  enqueue_pending tenant [] jobs =
      response 200
        (record {
          success = false;
          message = str "Nenhuma lesson pendente encontrada para este tenant";
          tenant_id = tenant;
          enqueued = [];
          skipped = [];
          enqueued_count = 0;
        })
        jobs
  enqueue_pending tenant (l ∷ ls) jobs =
      response_of tenant (str " (todas as pendentes)")
        (enqueue_rows tenant 0 (l ∷ ls) (nothing_yet jobs))

  unfoldable pub enqueue_all_unprocessed : GoString → List LessonRow → Jobs → Processed
  unfolding when_enabled enqueue_pending unprocessed_lessons
  enqueue_all_unprocessed tenant rows jobs = when_enabled tenant (b.tenant_row tenant) jobs (
      if b.list_fails
      then failed_with_status 500 (str "listar lessons pendentes") jobs
      else enqueue_pending tenant (unprocessed_lessons tenant rows) jobs)
