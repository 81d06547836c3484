-- ===== src/Transcription/Jobs/Lifecycle.antt =====
-- What every statement keeps of a row, and the transitions of its status.
use memberclass_backend_gola.Common.{
  ◌++◌, append-nil, Bool-cases, inl, inr, text_differs, All-concat, ℕ, ◌≤◌, ◌≡◌, refl, Bool, some,
  map, arith, if◌then◌else◌, GoString, ◌===◌, ◌∷◌, All, ap, [], ◌≢◌, sym, ◌∙◌, false,
}
use memberclass_backend_gola.Transcription.Jobs.{
  Job, Jobs, insert_job, failed, claimable, selected, has_id, claimed, claim_jobs, completed_with,
  failed_with, mark_job_completed, mark_job_failed, reset_orphans, orphaned, put_back,
}
use memberclass_backend_gola.Transcription.Jobs.Rows.{
  find_job, Unique, selected-claimable, find_job-id, find_job-map,
}

-- The statements that write to the table, with what they are given.
pub data Statement : Type 0 where
  claim : (limit : ℕ) (locked : GoString → Bool) (now : ℕ) → Statement
  complete : (id result : GoString) (now : ℕ) → Statement
  fail : (id message : GoString) (now : ℕ) → Statement
  reset : (now : ℕ) → Statement
  insert :
      (id tenant_id : GoString) (priority : ℕ) (payload : GoString) (max_attempts now : ℕ)
      → Statement

-- The primary key refuses an insert of an id that stands already.
unfoldable pub run_statement : Statement → Jobs → Jobs
unfolding claim_jobs mark_job_completed mark_job_failed reset_orphans insert_job has_id
run_statement (claim limit locked now) jobs = claim_jobs limit locked now jobs
run_statement (complete id result now) jobs = mark_job_completed id result now jobs
run_statement (fail id message now) jobs = mark_job_failed id message now jobs
run_statement (reset now) jobs = (reset_orphans now jobs).1
run_statement (insert id tenant_id priority payload max_attempts now) jobs =
    if has_id id jobs then jobs else insert_job id tenant_id priority payload max_attempts now jobs

-- What a statement does to one row of a table.
unfoldable pub run_row : Statement → Jobs → Job → Job
run_row (claim limit locked now) jobs j =
    if has_id j.id (selected limit locked jobs) then claimed now j else j
run_row (complete id result now) jobs j = if id === j.id then completed_with result now j else j
run_row (fail id message now) jobs j = if id === j.id then failed_with message now j else j
run_row (reset now) jobs j = if orphaned now j then put_back now j else j
run_row (insert _ _ _ _ _ _) jobs j = j

-- The rows that a statement adds.
unfoldable pub new_rows : Statement → Jobs → Jobs
unfolding insert_job has_id
new_rows (claim _ _ _) jobs = []
new_rows (complete _ _ _) jobs = []
new_rows (fail _ _ _) jobs = []
new_rows (reset _) jobs = []
new_rows (insert id tenant_id priority payload max_attempts now) jobs =
    if has_id id jobs then [] else insert_job id tenant_id priority payload max_attempts now []

map_same : (jobs : Jobs) → map (λ j. j) jobs ≡ jobs
map_same [] = refl
map_same (j ∷ js) = ap (λ l. j ∷ l) (map_same js)

pub run_statement-map :
    (c : Statement) (jobs : Jobs)
    → run_statement c jobs ≡ map (run_row c jobs) jobs ++ new_rows c jobs
unfolding run_statement run_row new_rows insert_job
run_statement-map (claim limit locked now) jobs = sym (append-nil _)
run_statement-map (complete id result now) jobs = sym (append-nil _)
run_statement-map (fail id message now) jobs = sym (append-nil _)
run_statement-map (reset now) jobs = sym (append-nil _)
run_statement-map (insert id tenant_id priority payload max_attempts now) jobs =
    elim (Bool-cases (has_id id jobs)) [
      | inl known ↦ rw (known, map_same jobs) (sym (append-nil jobs))
      | inr free ↦ rw (free, map_same jobs) refl
    ]

pub run_row_id : (c : Statement) (jobs : Jobs) (j : Job) → (run_row c jobs j).id ≡ j.id
unfolding run_row
run_row_id c jobs j = ground arith

-- A row is never tried more often than allowed, and fails only when its tries are used up.
pub record IsSound (j : Job) : Type 0 where
  pub tries_left : j.attempts ≤ j.max_attempts
  pub failed_spent : j.status ≡ failed → j.max_attempts ≤ j.attempts

run_row-IsSound :
    (c : Statement) (jobs : Jobs) (j : Job)
    → Unique jobs
    → find_job j.id jobs ≡ some j
    → IsSound j
    → IsSound (run_row c jobs j)
unfolding run_row orphaned claimable
run_row-IsSound (claim limit locked now) jobs j u found h =
    ground (arith, selected-claimable limit locked jobs j u found)
run_row-IsSound (complete id result now) jobs j u found h = ground arith
run_row-IsSound (fail id message now) jobs j u found h = ground arith
run_row-IsSound (reset now) jobs j u found h = ground arith
run_row-IsSound (insert _ _ _ _ _ _) jobs j u found h = h

find_job-append :
    (id : GoString) (jobs more : Jobs) (j : Job)
    → find_job id jobs ≡ some j
    → find_job id (jobs ++ more) ≡ some j
unfolding find_job
find_job-append id [] more j found = cc found
find_job-append id (k ∷ ks) more j found = elim (Bool-cases (id === k.id)) [
  | inl same ↦ rw same (rw same at found)
  | inr other ↦ rw other (find_job-append id ks more j (rw other at found))
]

-- The row of an id after a statement.
pub find_job-run_statement :
    (c : Statement) (id : GoString) (jobs : Jobs) (j : Job)
    → find_job id jobs ≡ some j
    → find_job id (run_statement c jobs) ≡ some (run_row c jobs j)
find_job-run_statement c id jobs j found = rw (run_statement-map c jobs) (
    find_job-append id (map (run_row c jobs) jobs) (new_rows c jobs) (run_row c jobs j)
      (rw (find_job-map (run_row c jobs) (run_row_id c jobs) id jobs) (rw found refl)))

All-ids :
    (f : Job → Job)
    → ((j : Job) → (f j).id ≡ j.id)
    → (j : Job) (js : Jobs) → All (λ k. k.id ≢ j.id) js
    → All (λ k. k.id ≢ (f j).id) (map f js)
All-ids f keeps j [] h = tt
All-ids f keeps j (k ∷ ks) h =
    ((λ e. h.0 (sym (keeps k) ∙ (e ∙ keeps j))), All-ids f keeps j ks h.1)

Unique-map :
    (f : Job → Job)
    → ((j : Job) → (f j).id ≡ j.id)
    → (jobs : Jobs) → Unique jobs
    → Unique (map f jobs)
Unique-map f keeps [] u = tt
Unique-map f keeps (j ∷ js) u = (All-ids f keeps j js u.0, Unique-map f keeps js u.1)

Lacks : GoString → Jobs → Type 0
Lacks id jobs = All (λ k. k.id ≢ id) jobs

absent_after :
    (f : Job → Job)
    → ((j : Job) → (f j).id ≡ j.id)
    → (id : GoString) (jobs : Jobs) → has_id id jobs ≡ false
    → Lacks id (map f jobs)
unfolding has_id Lacks
absent_after f keeps id [] absent = tt
absent_after f keeps id (j ∷ js) absent = elim (Bool-cases (id === j.id)) [
  | inl same ↦ cc (rw same at absent)
  | inr other ↦ (
    λ e. text_differs id j.id other (sym e ∙ keeps j),
    absent_after f keeps id js (rw other at absent),
  )
]

Unique-concat : (jobs : Jobs) (j : Job) → Unique jobs → Lacks j.id jobs → Unique (jobs ++ j ∷ [])
unfolding Lacks
Unique-concat [] j u absent = (tt, tt)
Unique-concat (k ∷ ks) j u absent = (
  All-concat (λ l. l.id ≢ k.id) ks j u.0 (λ e. absent.0 (sym e)),
  Unique-concat ks j u.1 absent.1,
)

Unique-new :
    (c : Statement) (jobs after : Jobs)
    → Unique after
    → ((id : GoString) → has_id id jobs ≡ false → Lacks id after)
    → Unique (after ++ new_rows c jobs)
unfolding new_rows insert_job
Unique-new (claim _ _ _) jobs after u absent = rw (append-nil after) u
Unique-new (complete _ _ _) jobs after u absent = rw (append-nil after) u
Unique-new (fail _ _ _) jobs after u absent = rw (append-nil after) u
Unique-new (reset _) jobs after u absent = rw (append-nil after) u
Unique-new (insert id tenant_id priority payload max_attempts now) jobs after u absent =
    elim (Bool-cases (has_id id jobs)) [
      | inl known ↦ rw (known, append-nil after) u
      | inr free ↦ rw free (Unique-concat after _ u (absent id free))
    ]

-- The rows that are added are sound.
new_rows-IsSound : (c : Statement) (jobs : Jobs) → All IsSound (new_rows c jobs)
unfolding new_rows insert_job
new_rows-IsSound (claim _ _ _) jobs = tt
new_rows-IsSound (complete _ _ _) jobs = tt
new_rows-IsSound (fail _ _ _) jobs = tt
new_rows-IsSound (reset _) jobs = tt
new_rows-IsSound (insert id tenant_id priority payload max_attempts now) jobs =
    elim (Bool-cases (has_id id jobs)) [
      | inl known ↦ rw known tt
      | inr free ↦ rw free ((record { tries_left = omega arith; failed_spent = λ e. cc e }, tt))
    ]

-- No statement makes an id stand twice.
pub run_statement-Unique :
    (c : Statement) (jobs : Jobs) → Unique jobs → Unique (run_statement c jobs)
run_statement-Unique c jobs u = rw (run_statement-map c jobs) (
    Unique-new c jobs (map (run_row c jobs) jobs)
      (Unique-map (run_row c jobs) (run_row_id c jobs) jobs u)
      (λ id absent. absent_after (run_row c jobs) (run_row_id c jobs) id jobs absent))

-- With unique ids every statement on the table of jobs, an insert included, keeps a sound row sound,
-- and adds sound rows only: a job is never tried more often than max_attempts, and is FAILED only when
-- its tries are used up.
pub run_statement-IsSound :
    (c : Statement) (id : GoString) (jobs : Jobs) (j : Job)
    → Unique jobs
    → find_job id jobs ≡ some j
    → IsSound j
    → (find_job id (run_statement c jobs) ≡ some (run_row c jobs j))
      × IsSound (run_row c jobs j)
      × All IsSound (new_rows c jobs)
run_statement-IsSound c id jobs j u found h =
    let same = find_job-id id jobs j found in
    (
      find_job-run_statement c id jobs j found,
      run_row-IsSound c jobs j u (ap (λ t. find_job t jobs) same ∙ found) h,
      new_rows-IsSound c jobs,
    )
