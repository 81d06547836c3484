-- ===== src/Transcription/Jobs/Traces.antt =====
-- Sequences of statements: how often a job is run, and the jobs that are never run again.
use memberclass_backend_gola.Common.{
  refl, ℕ, ◌+◌, ◌≤◌, ◌≡◌, ap, ◌∙◌, inl, inr, Bool, true, false, some, List, [], ◌∷◌, map, arith,
  if◌then◌else◌, Bool-cases, All, filter_by, GoString, ◌===◌, text_eq_iff,
}
use memberclass_backend_gola.Transcription.Jobs.{
  Job, Jobs, running, claimable, selected, has_id, claimed, claim_returning, orphaned,
}
use memberclass_backend_gola.Transcription.Jobs.Rows.{
  find_job, Unique, selected-claimable, find_job-id,
}
use memberclass_backend_gola.Transcription.Jobs.Lifecycle.{
  Statement, claim, complete, fail, reset, insert, run_statement, run_row, IsSound,
  find_job-run_statement, run_statement-Unique, run_statement-IsSound,
}

unfoldable pub run_all : List Statement → Jobs → Jobs
run_all [] jobs = jobs
run_all (c ∷ cs) jobs = run_all cs (run_statement c jobs)

-- Whether a statement hands the job of this id to a worker.
abbrev pub hands_out : Statement → GoString → Jobs → Bool
hands_out (claim limit locked now) id jobs = has_id id (claim_returning limit locked now jobs)
hands_out (complete _ _ _) id jobs = false
hands_out (fail _ _ _) id jobs = false
hands_out (reset _) id jobs = false
hands_out (insert _ _ _ _ _ _) id jobs = false

-- How often a sequence of statements does.
unfoldable pub handed_out : GoString → List Statement → Jobs → ℕ
handed_out id [] jobs = 0
handed_out id (c ∷ cs) jobs =
    (if hands_out c id jobs then 1 else 0) + handed_out id cs (run_statement c jobs)

returned_chosen :
    (now : ℕ) (chosen : Jobs) (id : GoString) (jobs : Jobs)
    → has_id id (map (claimed now) (filter_by (λ j. has_id j.id chosen) jobs)) ≡ true
    → has_id id chosen ≡ true
unfolding has_id
returned_chosen now chosen id [] h = cc
returned_chosen now chosen id (j ∷ js) h = elim (Bool-cases (has_id j.id chosen)) [
  | inl taken ↦ elim (Bool-cases (id === j.id)) [
    | inl same ↦ rw ((text_eq_iff id j.id).0 same) taken
    | inr other ↦ returned_chosen now chosen id js (rw (taken, other, has_id) at h)
  ]
  | inr left ↦ returned_chosen now chosen id js (rw (left, has_id) at h)
]

-- One statement uses up a try of each job that it hands out, and gives none back.
hands_out_attempts :
    (c : Statement) (id : GoString) (jobs : Jobs) (j : Job)
    → find_job id jobs ≡ some j
    → (if hands_out c id jobs then 1 else 0) + j.attempts ≤ (run_row c jobs j).attempts
unfolding run_row claim_returning
hands_out_attempts (claim limit locked now) id jobs j found =
    let same = find_job-id id jobs j found in
    elim (Bool-cases (has_id id (claim_returning limit locked now jobs))) [
      | inl taken ↦
          let chosen = returned_chosen now (selected limit locked jobs) id jobs taken in
          rw taken (rw same (rw chosen (omega arith)))
      | inr left ↦ ground arith
    ]
hands_out_attempts (complete _ _ _) id jobs j found = ground arith
hands_out_attempts (fail _ _ _) id jobs j found = ground arith
hands_out_attempts (reset _) id jobs j found = ground arith
hands_out_attempts (insert _ _ _ _ _ _) id jobs j found = omega arith

run_row_max :
    (c : Statement) (jobs : Jobs) (j : Job) → (run_row c jobs j).max_attempts ≡ j.max_attempts
unfolding run_row
run_row_max c jobs j = ground arith

-- However claims, completions, failures, resets and inserts follow one another, a job is handed to workers at
-- most max_attempts times in all, the tries that it has used before included.
pub handed_out_bounded :
    (cs : List Statement) (id : GoString) (jobs : Jobs) (j : Job)
    → Unique jobs
    → find_job id jobs ≡ some j
    → IsSound j
    → handed_out id cs jobs + j.attempts ≤ j.max_attempts
unfolding handed_out
handed_out_bounded [] id jobs j u found h = omega (arith, h.tries_left)
handed_out_bounded (c ∷ cs) id jobs j u found h =
    let (found', h', _) = run_statement-IsSound c id jobs j u found h in
    let ih =
      handed_out_bounded cs id (run_statement c jobs) (run_row c jobs j)
        (run_statement-Unique c jobs u) found' h' in
    omega (arith, ih, hands_out_attempts c id jobs j found, run_row_max c jobs j)

-- A statement that does not name the job.
abbrev pub SparesJob : GoString → Statement → Type 0
SparesJob id (claim _ _ _) = Unit
SparesJob id (complete other _ _) = (id === other) ≡ false
SparesJob id (fail other _ _) = (id === other) ≡ false
SparesJob id (reset _) = Unit
SparesJob id (insert _ _ _ _ _ _) = Unit

stuck_row :
    (c : Statement) (id : GoString) (jobs : Jobs) (j : Job)
    → Unique jobs
    → find_job id jobs ≡ some j
    → SparesJob id c
    → j.status ≡ running
    → j.max_attempts ≤ j.attempts
    → run_row c jobs j ≡ j
unfolding run_row claimable orphaned
stuck_row (claim limit locked now) id jobs j u found s r spent =
    let same = find_job-id id jobs j found in
    let back = selected-claimable limit locked jobs j u (ap (λ t. find_job t jobs) same ∙ found) in
    ground (arith, back)
stuck_row (complete other result now) id jobs j u found s r spent =
    ground (arith, text_eq_iff other j.id, text_eq_iff id other, find_job-id id jobs j found)
stuck_row (fail other message now) id jobs j u found s r spent =
    ground (arith, text_eq_iff other j.id, text_eq_iff id other, find_job-id id jobs j found)
stuck_row (reset now) id jobs j u found s r spent = ground arith
stuck_row (insert _ _ _ _ _ _) id jobs j u found s r spent = refl

-- Defect: a job whose worker dies in its last try stays RUNNING for ever. Whatever claims, inserts and
-- resets follow, at whatever time, and whatever becomes of the other jobs, its row does not change: no reset
-- puts it back and none marks it FAILED.
pub stuck_forever :
    (cs : List Statement) (id : GoString) (jobs : Jobs) (j : Job)
    → Unique jobs
    → find_job id jobs ≡ some j
    → All (SparesJob id) cs
    → j.status ≡ running
    → j.max_attempts ≤ j.attempts
    → find_job id (run_all cs jobs) ≡ some j
unfolding run_all
stuck_forever [] id jobs j u found spared r spent = found
stuck_forever (c ∷ cs) id jobs j u found spared r spent =
    let still = stuck_row c id jobs j u found spared.0 r spent in
    stuck_forever cs id (run_statement c jobs) j (run_statement-Unique c jobs u)
      (find_job-run_statement c id jobs j found ∙ ap some still) spared.1 r spent
