-- ===== src/Transcription/Jobs/Rows.antt =====
-- Rows found by their primary key, and what each statement does to the row of one id.
use memberclass_backend_gola.Common.{
  ℕ, ◌≡◌, refl, sym, ◌∙◌, ◌≢◌, inl, inr, Bool, true, Option, none, some, [], ◌∷◌, map, arith,
  if◌then◌else◌, Bool-cases, All, All-take, All-filter_by, All-implies, GoString, ◌===◌,
  text_eq_refl, text_eq_iff, ap,
}
use mathlib.Core.Option.{some-injective}
use memberclass_backend_gola.Transcription.Jobs.{
  Job, Jobs, claimable, comes_before, insert_ordered, order_jobs, selected, has_id,
}

unfoldable pub find_job : GoString → Jobs → Option Job
find_job id [] = none
find_job id (j ∷ js) = if id === j.id then some j else find_job id js

-- `id` is the primary key.
abbrev pub Unique : Jobs → Type 0
Unique [] = Unit
Unique (j ∷ js) = All (λ k. k.id ≢ j.id) js × Unique js

-- The row that a function makes of a row, in a table where it keeps the ids.
pub find_job-map :
    (f : Job → Job)
    → ((j : Job) → (f j).id ≡ j.id)
    → (id : GoString) (jobs : Jobs)
    → find_job id (map f jobs) ≡ (elim (find_job id jobs) [ none ↦ none | some j ↦ some (f j) ])
unfolding find_job
find_job-map f keeps id [] = refl
find_job-map f keeps id (j ∷ js) = elim (Bool-cases (id === j.id)) [
  | inl same ↦ rw (ap (λ t. id === t) (keeps j) ∙ same, same) refl
  | inr other ↦ rw (ap (λ t. id === t) (keeps j) ∙ other, other) (find_job-map f keeps id js)
]

pub find_job-id : (id : GoString) (jobs : Jobs) (j : Job) → find_job id jobs ≡ some j → j.id ≡ id
unfolding find_job
find_job-id id [] j e = cc
find_job-id id (k ∷ ks) j e = elim (Bool-cases (id === k.id)) [
  | inl same ↦ ground (arith, text_eq_iff id k.id)
  | inr other ↦ find_job-id id ks j (rw (other, find_job) at e)
]

find_job_skip :
    (j : Job) (js : Jobs) (k : Job)
    → (k.id ≢ j.id) × (find_job k.id js ≡ some k)
    → find_job k.id (j ∷ js) ≡ some k
unfolding find_job
find_job_skip j js k h = ground (arith, text_eq_iff k.id j.id)

All-both : (P Q : Job → Type 0) (xs : Jobs) → All P xs → All Q xs → All (λ k. P k × Q k) xs
All-both P Q [] h k = tt
All-both P Q (x ∷ xs) h k = ((h.0, k.0), All-both P Q xs h.1 k.1)

-- With unique ids every row is the one found by its id.
pub find_job_self : (jobs : Jobs) → Unique jobs → All (λ k. find_job k.id jobs ≡ some k) jobs
unfolding find_job
find_job_self [] u = tt
find_job_self (j ∷ js) u = (
  rw (text_eq_refl j.id),
  All-implies _ _ (find_job_skip j js) js (All-both _ _ js u.0 (find_job_self js u.1)),
)

All-insert_ordered :
    (P : Job → Type 0) (j : Job) (js : Jobs) → P j → All P js → All P (insert_ordered j js)
unfolding insert_ordered
All-insert_ordered P j [] p h = (p, tt)
All-insert_ordered P j (k ∷ ks) p h = elim (Bool-cases (comes_before j k)) [
  | inl before ↦ rw before (p, h)
  | inr after ↦ rw after (h.0, All-insert_ordered P j ks p h.1)
]

All-order_jobs : (P : Job → Type 0) (js : Jobs) → All P js → All P (order_jobs js)
unfolding order_jobs
All-order_jobs P [] h = tt
All-order_jobs P (j ∷ js) h = All-insert_ordered P j (order_jobs js) h.0 (All-order_jobs P js h.1)

has_id-All :
    (P : Job → Type 0) (id : GoString) (js : Jobs)
    → All P js
    → has_id id js ≡ true
    → (k : Job) × (k.id ≡ id) × P k
unfolding has_id
has_id-All P id [] h e = cc
has_id-All P id (j ∷ js) h e = elim (Bool-cases (id === j.id)) [
  | inl same ↦ (j, sym ((text_eq_iff id j.id).0 same), h.0)
  | inr other ↦ has_id-All P id js h.1 (rw (other, has_id) at e)
]

-- A row that a claim takes could be claimed.
pub selected-claimable :
    (limit : ℕ) (locked : GoString → Bool) (jobs : Jobs) (j : Job)
    → Unique jobs
    → find_job j.id jobs ≡ some j
    → has_id j.id (selected limit locked jobs) ≡ true
    → claimable locked j ≡ true
unfolding selected
selected-claimable limit locked jobs j u found chosen =
    let P : Job → Type 0 = λ k. (find_job k.id jobs ≡ some k) × (claimable locked k ≡ true) in
    let filtered = All-filter_by _ (claimable locked) jobs (find_job_self jobs u) in
    let (k, same, both) =
      has_id-All P j.id (selected limit locked jobs)
        (All-take P limit _ (All-order_jobs P _ filtered)) chosen in
    let e : k ≡ j = some-injective k j (sym both.0 ∙ (rw same found)) in rw (← e) both.1
