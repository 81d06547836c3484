-- ===== src/Transcription/Accounted.antt =====
-- What each step of the enqueueing keeps.
use memberclass_backend_gola.Common.{
  ℕ, ◌≡◌, refl, sym, ap, ◌∙◌, inl, inr, Bool, true, false, ◌&&◌, none, some, List, [], ◌∷◌, ◌++◌,
  map, append_assoc, arith, Bool-cases, Option-cases, All, All-concat, GoString, ◌===◌, text_eq_iff,
  has_text,
}
use memberclass_backend_gola.Transcription.Jobs.{Job, Jobs, pending, video_processing, insert_job}
use memberclass_backend_gola.Transcription.Enqueue.{
  LessonRow, EnqueuedLesson, Enqueueing, is_bunny, lessons_by_ids, found_lesson, skip, accept,
  SkippedLesson,
}

-- A job that waits with all its tries.
pub IsNew : GoString → Job → Type 0
IsNew tenant j =
    (j.tenant_id ≡ tenant) × (j.status ≡ pending) × (j.attempts ≡ 0) × (j.max_attempts ≡ 3)

-- A row of the table.
pub data IsRow (l : LessonRow) : List LessonRow → Type 0 where
  first_row : {ls : List LessonRow} → IsRow l (l ∷ ls)
  later_row : {m : LessonRow} {ls : List LessonRow} → IsRow l ls → IsRow l (m ∷ ls)

-- It stands for a row of the tenant in the database, with a video of Bunny, and not transcribed.
pub record IsEligible (tenant : GoString) (rows : List LessonRow) (e : EnqueuedLesson)
    : Type 0 where
  pub lesson : LessonRow
  pub stored : IsRow lesson rows
  pub named : lesson.id ≡ e.lesson_id
  pub owned : lesson.tenant_id ≡ tenant
  pub on_bunny : is_bunny lesson.media_url ≡ true
  pub to_do : lesson.transcription_completed ≡ false

-- The requested ids are those enqueued and those skipped, mixed, each list in the order of the request.
pub data IsMix : List EnqueuedLesson → List SkippedLesson → List GoString → Type 0 where
  nothing_asked : IsMix [] [] []
  one_enqueued :
      {es : List EnqueuedLesson} {ss : List SkippedLesson} {ids : List GoString}
      (e : EnqueuedLesson)
      → IsMix es ss ids
      → IsMix (es ++ e ∷ []) ss (ids ++ e.lesson_id ∷ [])
  one_skipped :
      {es : List EnqueuedLesson} {ss : List SkippedLesson} {ids : List GoString} (s : SkippedLesson)
      → IsMix es ss ids
      → IsMix es (ss ++ s ∷ []) (ids ++ s.lesson_id ∷ [])

-- The table has gained one new job for each enqueued lesson, in their order, every id that was asked
-- for is answered in one of the lists, and those enqueued are eligible.
pub record IsAccounted (tenant : GoString) (rows : List LessonRow) (before : Jobs)
    (asked : List GoString) (e : Enqueueing) : Type 0 where
  pub fresh : Jobs
  pub table : e.jobs ≡ before ++ fresh
  pub ids : map (λ j. j.id) fresh ≡ map (λ l. l.job_id) e.enqueued
  pub waiting : All (IsNew tenant) fresh
  pub all_listed : IsMix e.enqueued e.skipped asked
  pub eligible : All (IsEligible tenant rows) e.enqueued

map-concat :
    {A B : Type 0} (f : A → B) (xs : List A) (x : A) → map f (xs ++ x ∷ []) ≡ map f xs ++ f x ∷ []
map-concat f [] x = refl
map-concat f (y ∷ ys) x = ap (λ l. f y ∷ l) (map-concat f ys x)

module _ (tenant : GoString) (rows : List LessonRow) (before : Jobs) where
  pub skip-IsAccounted :
      (id reason : GoString) (asked : List GoString) (e : Enqueueing)
      → IsAccounted tenant rows before asked e
      → IsAccounted tenant rows before (asked ++ id ∷ []) (skip id reason e)
  unfolding skip
  skip-IsAccounted id reason asked e h = record {
    fresh = h.fresh;
    table = h.table;
    ids = h.ids;
    waiting = h.waiting;
    all_listed = one_skipped (record { lesson_id = id; reason = reason }) h.all_listed;
    eligible = h.eligible;
  }

  pub accept-IsAccounted :
      (id job_id payload : GoString) (now : ℕ) (asked : List GoString) (e : Enqueueing)
      → IsEligible tenant rows (record { lesson_id = id; job_id = job_id })
      → IsAccounted tenant rows before asked e
      → IsAccounted tenant rows before (asked ++ id ∷ []) (accept tenant id job_id payload now e)
  unfolding accept insert_job IsNew
  accept-IsAccounted id job_id payload now asked e good h =
      let job : Job = record {
        id = job_id;
        tenant_id = tenant;
        job_type = video_processing;
        status = pending;
        priority = 0;
        payload = payload;
        result = none;
        error = none;
        attempts = 0;
        max_attempts = 3;
        created_at = now;
        updated_at = now;
        started_at = none;
        completed_at = none;
        failed_at = none;
      } in
      let entry : EnqueuedLesson = record { lesson_id = id; job_id = job_id } in
      record {
        fresh = h.fresh ++ job ∷ [];
        table = ap (λ t. t ++ job ∷ []) h.table ∙ append_assoc before h.fresh (job ∷ []);
        ids =
            map-concat (λ j. j.id) h.fresh job
            ∙ (ap (λ l. l ++ job_id ∷ []) h.ids
                ∙ sym (map-concat (λ l. l.job_id) e.enqueued entry));
        waiting = All-concat (IsNew tenant) h.fresh job h.waiting (refl, refl, refl, refl);
        all_listed = one_enqueued entry h.all_listed;
        eligible = All-concat (IsEligible tenant rows) e.enqueued entry h.eligible good;
      }

pub found_lesson-All :
    (P : LessonRow → Type 0) (id : GoString) (ls : List LessonRow) (l : LessonRow)
    → All P ls
    → found_lesson id ls ≡ some l
    → P l × (l.id ≡ id)
unfolding found_lesson
found_lesson-All P id [] l h e = cc e
found_lesson-All P id (m ∷ ls) l h e = elim (Option-cases (found_lesson id ls)) [
  | inr (n, later) ↦
      let same : some n ≡ some l = rw later at e in found_lesson-All P id ls l h.1 (later ∙ same)
  | inl only ↦ elim (Bool-cases (m.id === id)) [
    | inl it ↦
        let same : some m ≡ some l = rw (only, it) at e in
        let equal : m ≡ l = cc same in rw (sym equal) ((h.0, (text_eq_iff m.id id).0 it))
    | inr other ↦ cc (rw (only, other) at e)
  ]
]

-- A row of the tenant with a video of Bunny.
unfoldable pub IsOwned : GoString → List LessonRow → LessonRow → Type 0
IsOwned tenant rows l = IsRow l rows × (l.tenant_id ≡ tenant) × (is_bunny l.media_url ≡ true)

pub All-IsRow :
    (P : LessonRow → Type 0) (ls : List LessonRow) → ((l : LessonRow) → IsRow l ls → P l) → All P ls
All-IsRow P [] f = tt
All-IsRow P (l ∷ ls) f = (f l first_row, All-IsRow P ls (λ m r. f m (later_row r)))

pub lessons_by_ids-IsOwned :
    (tenant : GoString) (ids : List GoString) (all rows : List LessonRow)
    → All (λ l. IsRow l all) rows
    → All (IsOwned tenant all) (lessons_by_ids tenant ids rows)
unfolding lessons_by_ids IsOwned
lessons_by_ids-IsOwned tenant ids all [] members = tt
lessons_by_ids-IsOwned tenant ids all (l ∷ ls) members =
    elim (Bool-cases (has_text l.id ids && ((l.tenant_id === tenant) && is_bunny l.media_url))) [
      | inl taken ↦ rw taken (
        (
          members.0,
          (text_eq_iff l.tenant_id tenant).0
              (and_left (has_text l.id ids) (l.tenant_id === tenant) (is_bunny l.media_url) taken),
          and_right (has_text l.id ids) (l.tenant_id === tenant) (is_bunny l.media_url) taken,
        ),
        lessons_by_ids-IsOwned tenant ids all ls members.1,
      )
      | inr other ↦ rw other (lessons_by_ids-IsOwned tenant ids all ls members.1)
    ]
  where
    and_left : (x y z : Bool) → (x && (y && z)) ≡ true → y ≡ true
    and_left x y z h = ground (arith, h)

    and_right : (x y z : Bool) → (x && (y && z)) ≡ true → z ≡ true
    and_right x y z h = ground (arith, h)
