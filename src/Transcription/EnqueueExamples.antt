-- ===== src/Transcription/EnqueueExamples.antt =====
-- A run of the enqueueing: one lesson is enqueued, one is of another tenant.
use memberclass_backend_gola.Common.{
  ℕ, length, ltb, ◌≡◌, refl, true, false, none, some, List, [], ◌∷◌, ◌++◌, GoString, str, ◌===◌,
  has_text, has_prefix, index_of,
}
use memberclass_backend_gola.Common.Decimal.{format_nat}
use memberclass_backend_gola.Transcription.Jobs.{Jobs, insert_job, video_processing, pending}
use memberclass_backend_gola.Transcription.Enqueue.{
  LessonRow, ProcessLessonsResponse, Backend, response, is_bunny, lessons_by_ids, found_lesson,
  skip, accept, enqueue_payload, enqueue_lesson, enqueue_found, enqueue_ids, response_of,
  when_enabled, enqueue_selected_lessons, unknown_reason, bunny_host,
}
use memberclass_backend_gola.Transcription.Accounted.{IsAccounted}
use memberclass_backend_gola.Transcription.Enqueued.{enqueue_selected_lessons-IsAccounted}

abbrev lesson_of : GoString → GoString → LessonRow
lesson_of id tenant = record {
  id = id;
  name = str "n";
  media_url = bunny_host;
  course_id = str "c";
  tenant_id = tenant;
  published = true;
  transcription_completed = false;
}

abbrev two_lessons : List LessonRow
two_lessons = lesson_of (str "a") (str "t") ∷ lesson_of (str "b") (str "u") ∷ []

abbrev backend : Backend
backend = record {
  tenant_row = λ t.
      some
        (record { ai_enabled = some true; bunny_library_id = none; bunny_library_api_key = none });
  list_fails = false;
  marshal = λ p. some p.lesson_id;
  now = 5;
  uuid = λ n. n ∷ [];
  insert_fails = λ n. false;
}

abbrev accepted : ℕ
accepted = 202

abbrev answer_to_two : ProcessLessonsResponse
answer_to_two = record {
  success = true;
  message = str "1 job(s) de transcri" ++ (195 ∷ 167 ∷ 195 ∷ 163 ∷ str "o enfileirado(s)");
  tenant_id = str "t";
  enqueued = record { lesson_id = str "a"; job_id = 0 ∷ [] } ∷ [];
  skipped = record { lesson_id = str "b"; reason = unknown_reason } ∷ [];
  enqueued_count = 1;
}

abbrev jobs_after_two : Jobs
jobs_after_two =
    record {
      id = 0 ∷ [];
      tenant_id = str "t";
      job_type = video_processing;
      status = pending;
      priority = 0;
      payload = str "a";
      result = none;
      error = none;
      attempts = 0;
      max_attempts = 3;
      created_at = 5;
      updated_at = 5;
      started_at = none;
      completed_at = none;
      failed_at = none;
    }
    ∷ []

runs :
    enqueue_selected_lessons backend (str "t") (str "a" ∷ str "b" ∷ []) two_lessons []
    ≡ response 202 answer_to_two jobs_after_two
unfolding enqueue_selected_lessons when_enabled enqueue_ids enqueue_found enqueue_lesson
    enqueue_payload skip accept insert_job lessons_by_ids found_lesson is_bunny response_of ◌===◌
    has_text index_of has_prefix format_nat
runs = refl

enqueue_selected_lessons-IsAccounted_example :
    (accepted ≡ 202)
    × (answer_to_two.enqueued_count ≡ length answer_to_two.enqueued)
    × (answer_to_two.success ≡ ltb 0 (length answer_to_two.enqueued))
    × IsAccounted (str "t") two_lessons [] (str "a" ∷ str "b" ∷ []) (record {
      enqueued = answer_to_two.enqueued;
      skipped = answer_to_two.skipped;
      jobs = jobs_after_two;
    })
enqueue_selected_lessons-IsAccounted_example =
    enqueue_selected_lessons-IsAccounted backend (str "t") two_lessons [] (str "a" ∷ str "b" ∷ [])
      202 answer_to_two jobs_after_two runs
