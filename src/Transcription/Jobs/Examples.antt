-- ===== src/Transcription/Jobs/Examples.antt =====
-- Runs of the statements on a small table.
use memberclass_backend_gola.Common.{
  All, ℕ, ◌+◌, ◌≤◌, ◌≡◌, refl, Bool, false, none, some, List, [], ◌∷◌, arith, GoString, str, ◌===◌,
  text_differs,
}
use memberclass_backend_gola.Transcription.Jobs.{
  Job, Jobs, JobStatus, pending, running, completed, video_processing, claim_returning,
}
use memberclass_backend_gola.Transcription.Jobs.Rows.{find_job, Unique}
use memberclass_backend_gola.Transcription.Jobs.Lifecycle.{
  Statement, claim, fail, reset, run_statement, run_row, new_rows, IsSound, run_statement-IsSound,
}
use memberclass_backend_gola.Transcription.Jobs.Traces.{
  run_all, handed_out, handed_out_bounded, stuck_forever,
}

abbrev job : GoString → JobStatus → ℕ → ℕ → Job
job id status attempts created_at = record {
  id = id;
  tenant_id = str "t";
  job_type = video_processing;
  status = status;
  priority = 0;
  payload = [];
  result = none;
  error = none;
  attempts = attempts;
  max_attempts = 3;
  created_at = created_at;
  updated_at = created_at;
  started_at = some created_at;
  completed_at = none;
  failed_at = none;
}

-- A pending job, one that its worker died on in the last try, and a completed one.
abbrev waiting : Job
waiting = job (str "a") pending 0 10

abbrev lost : Job
lost = job (str "b") running 3 20

abbrev done : Job
done = job (str "c") completed 1 5

abbrev table : Jobs
table = lost ∷ waiting ∷ done ∷ []

abbrev nobody : GoString → Bool
nobody id = false

claims_oldest :
    claim_returning 1 nobody 99 (job (str "x") pending 0 7 ∷ job (str "y") pending 0 3 ∷ [])
    ≡ record (job (str "y") pending 0 3) {
      status = running;
      started_at = some 99;
      attempts = 1;
      updated_at = 99;
    }
      ∷ []
unfolding claim_returning ◌===◌
claims_oldest = refl

table-Unique : Unique table
unfolding ◌===◌
table-Unique = (
  (text_differs (str "a") (str "b") refl, (text_differs (str "c") (str "b") refl, tt)),
  ((text_differs (str "c") (str "a") refl, tt), (tt, tt)),
)

found_waiting : find_job (str "a") table ≡ some waiting
unfolding find_job ◌===◌
found_waiting = refl

found_lost : find_job (str "b") table ≡ some lost
unfolding find_job ◌===◌
found_lost = refl

found_done : find_job (str "c") table ≡ some done
unfolding find_job ◌===◌
found_done = refl

waiting-IsSound : IsSound waiting
waiting-IsSound = record { tries_left = omega arith; failed_spent = λ e. cc e }

run_statement-IsSound_example :
    (find_job (str "a") (run_statement (claim 2 nobody 99) table)
      ≡ some (run_row (claim 2 nobody 99) table waiting))
    × IsSound (run_row (claim 2 nobody 99) table waiting)
    × All IsSound (new_rows (claim 2 nobody 99) table)
run_statement-IsSound_example =
    run_statement-IsSound (claim 2 nobody 99) (str "a") table waiting table-Unique found_waiting
      waiting-IsSound

abbrev busy : List Statement
busy =
    claim 2 nobody 99
    ∷ fail (str "a") (str "e") 100
    ∷ claim 2 nobody 130
    ∷ reset 5000
    ∷ claim 1 nobody 5030
    ∷ []

handed_out_bounded_example : handed_out (str "a") busy table + 0 ≤ 3
handed_out_bounded_example =
    handed_out_bounded busy (str "a") table waiting table-Unique found_waiting waiting-IsSound

stuck_forever_example : find_job (str "b") (run_all busy table) ≡ some lost
unfolding ◌===◌
stuck_forever_example =
    stuck_forever busy (str "b") table lost table-Unique found_lost
      (tt, (refl, (tt, (tt, (tt, tt))))) refl (omega arith)
