-- ===== src/Transcription/Jobs.antt =====
-- The jobs table of the transcription worker: internal/features/workers/transcription/sql.go,
-- worker_claim.go and the parts of worker.go that touch it. The table is the list of its rows; a
-- statement is a function on it, with now() as an argument, in seconds. Connection errors are left out.
pub mod Rows
pub mod Lifecycle
pub mod Traces
mod Examples
use memberclass_backend_gola.Common.{
  ℕ, zero, suc, ◌+◌, ◌-◌, ◌*◌, ◌/◌, ◌%◌, ◌^◌, ◌≤◌, ◌<◌, min, String, ◌≡◌, refl, sym, ap, ◌∙◌,
  ◌≡⟨◌⟩◌, ◌∎, ◌≢◌, ◌↔◌, ◌⊎◌, inl, inr, Bool, true, false, not, ◌&&◌, ◌||◌, Option, none, some, List,
  [], ◌∷◌, ◌++◌, map, append-nil, append_assoc, arith, ltb, leb, ◌==◌, if◌then◌else◌, Bool-cases,
  Option-cases, is_some, ==_iff, ltb→lt, lt→ltb, leb→le, le→leb, length, take, drop, replicate, All,
  length-append, length-take, length-drop, take-append-drop, GoString, str, ◌===◌, text_eq_refl,
  filter_by, text_eq_iff, is_empty, until, split, is_space, trim_left, trim_right, trim_space,
  to_lower_byte, to_lower,
}

pub data JobStatus : Type 0 where
  pending running completed failed cancelled : JobStatus

pub data JobType : Type 0 where
  video_processing embedding_generation : JobType

-- `priority` is what sqlInsertJob writes, 0; a claim orders by it.
pub record Job : Type 0 where
  pub id : GoString
  pub tenant_id : GoString
  pub job_type : JobType
  pub status : JobStatus
  pub priority : ℕ
  pub payload : GoString
  pub result : Option GoString
  pub error : Option GoString
  pub attempts : ℕ
  pub max_attempts : ℕ
  pub created_at : ℕ
  pub updated_at : ℕ
  pub started_at : Option ℕ
  pub completed_at : Option ℕ
  pub failed_at : Option ℕ

abbrev pub Jobs : Type 0
Jobs = List Job

abbrev pub is_pending : JobStatus → Bool
is_pending pending = true
is_pending _ = false

abbrev pub is_running : JobStatus → Bool
is_running running = true
is_running _ = false

abbrev pub is_video_processing : JobType → Bool
is_video_processing video_processing = true
is_video_processing embedding_generation = false

-- The WHERE of the inner SELECT of sqlClaimJobs; rows locked by another transaction are skipped.
unfoldable pub claimable : (GoString → Bool) → Job → Bool
claimable locked j =
    is_pending j.status
    && (is_video_processing j.job_type && (ltb j.attempts j.max_attempts && not (locked j.id)))

-- ORDER BY priority DESC, created_at ASC; rows that tie stay in table order.
unfoldable pub comes_before : Job → Job → Bool
comes_before a b =
    if a.priority == b.priority then leb a.created_at b.created_at else ltb b.priority a.priority

unfoldable pub insert_ordered : Job → Jobs → Jobs
unfolding comes_before
insert_ordered j [] = j ∷ []
insert_ordered j (k ∷ ks) = if comes_before j k then j ∷ k ∷ ks else k ∷ insert_ordered j ks

unfoldable pub order_jobs : Jobs → Jobs
unfolding insert_ordered
order_jobs [] = []
order_jobs (j ∷ js) = insert_ordered j (order_jobs js)

unfoldable pub selected : ℕ → (GoString → Bool) → Jobs → Jobs
unfolding order_jobs claimable
selected limit locked jobs = take limit (order_jobs (filter_by (claimable locked) jobs))

-- `id IN (…)`
unfoldable pub has_id : GoString → Jobs → Bool
has_id id [] = false
has_id id (j ∷ js) = (id === j.id) || has_id id js

abbrev pub claimed : ℕ → Job → Job
claimed now j = record j {
  status = running;
  started_at = some now;
  attempts = j.attempts + 1;
  updated_at = now;
}

-- sqlClaimJobs: the table afterwards.
unfoldable pub claim_jobs : ℕ → (GoString → Bool) → ℕ → Jobs → Jobs
unfolding selected has_id
claim_jobs limit locked now jobs =
    let chosen = selected limit locked jobs in
    map (λ j. if has_id j.id chosen then claimed now j else j) jobs

-- RETURNING: the rows it updated, as they are afterwards.
unfoldable pub claim_returning : ℕ → (GoString → Bool) → ℕ → Jobs → Jobs
unfolding selected has_id
claim_returning limit locked now jobs =
    let chosen = selected limit locked jobs in
    map (claimed now) (filter_by (λ j. has_id j.id chosen) jobs)

-- claimPending; a limit of 0 asks nothing of the database.
unfoldable pub claim_pending : ℕ → (GoString → Bool) → ℕ → Jobs → Jobs × Jobs
unfolding claim_jobs claim_returning
claim_pending zero locked now jobs = ([], jobs)
claim_pending (suc limit) locked now jobs =
    (claim_returning (suc limit) locked now jobs, claim_jobs (suc limit) locked now jobs)

-- `UPDATE jobs SET … WHERE id = $1`
unfoldable pub update_job : GoString → (Job → Job) → Jobs → Jobs
update_job id f jobs = map (λ j. if id === j.id then f j else j) jobs

abbrev pub completed_with : GoString → ℕ → Job → Job
completed_with result now j = record j {
  status = completed;
  completed_at = some now;
  result = some result;
  updated_at = now;
}

-- sqlMarkJobCompleted
unfoldable pub mark_job_completed : GoString → GoString → ℕ → Jobs → Jobs
unfolding update_job
mark_job_completed id result now jobs = update_job id (completed_with result now) jobs

abbrev pub failed_with : GoString → ℕ → Job → Job
failed_with message now j = record j {
  status = if leb j.max_attempts j.attempts then failed else pending;
  failed_at = if leb j.max_attempts j.attempts then some now else j.failed_at;
  error = some message;
  updated_at = now;
}

-- sqlMarkJobFailed, and markJobFailed around it
unfoldable pub mark_job_failed : GoString → GoString → ℕ → Jobs → Jobs
unfolding update_job
mark_job_failed id message now jobs = update_job id (failed_with message now) jobs

-- orphanStaleThreshold, 30 minutes
abbrev pub orphan_stale_threshold : ℕ
orphan_stale_threshold = 1800

-- `started_at < now() - …`, which is not true of NULL
abbrev pub is_stale : ℕ → Option ℕ → Bool
is_stale now none = false
is_stale now (some started) = ltb (started + orphan_stale_threshold) now

unfoldable pub orphaned : ℕ → Job → Bool
orphaned now j = is_running j.status && (is_stale now j.started_at && ltb j.attempts j.max_attempts)

abbrev pub put_back : ℕ → Job → Job
put_back now j = record j { status = pending; updated_at = now }

-- sqlResetOrphans, and resetOrphans around it: the number of rows, and the table
unfoldable pub reset_orphans : ℕ → Jobs → ℕ × Jobs
unfolding orphaned
reset_orphans now jobs = (
  length (filter_by (orphaned now) jobs),
  map (λ j. if orphaned now j then put_back now j else j) jobs,
)

-- sqlInsertJob, with the column defaults of the table for what it leaves out
unfoldable pub insert_job : GoString → GoString → ℕ → GoString → ℕ → ℕ → Jobs → Jobs
insert_job id tenant_id priority payload max_attempts now jobs =
    jobs
    ++ record {
      id = id;
      tenant_id = tenant_id;
      job_type = video_processing;
      status = pending;
      priority = priority;
      payload = payload;
      result = none;
      error = none;
      attempts = 0;
      max_attempts = max_attempts;
      created_at = now;
      updated_at = now;
      started_at = none;
      completed_at = none;
      failed_at = none;
    }
      ∷ []

-- processOne: executeJob, a parameter here, marks the job completed itself; on an error the job is
-- marked failed.
unfoldable pub process_one : (Job → Jobs → Option GoString × Jobs) → ℕ → Job → Jobs → Jobs
unfolding mark_job_failed
process_one execute_job now j jobs =
    let (outcome, jobs') = execute_job j jobs in
    elim outcome [ none ↦ jobs' | some message ↦ mark_job_failed j.id message now jobs' ]
