-- ===== src/Pdf/Covering.antt =====
-- What saving the pages of a document achieves, in pdf_processor_usecase.go, in whatever order the
-- workers take the pages and whatever fails on the way.
use memberclass_backend_gola.Common.{
  ℕ, suc, ◌+◌, ◌≤◌, ◌≡◌, refl, sym, ◌∙◌, ◌⊎◌, inl, inr, true, false, none, some, List, [], ◌∷◌,
  ◌++◌, arith, Bool-cases, is_some, length, All, GoString, ap, Option-cases,
}
use memberclass_backend_gola.Pdf.{
  LessonPdfPage, Db, Answer, Services, is_page, find_page, value, missing, broken,
  get_pdf_page_by_asset_and_number, called, is_down,
}
use memberclass_backend_gola.Pdf.Pages.{
  PageJob, one_if_saved, save_single_page, save_jobs, save_missing_page,
}
use memberclass_backend_gola.Pdf.Saving.{is_page_iff, save_single_page_lem, SameTables}

find_page-append :
    (asset_id : GoString) (n : ℕ) (ps qs : List LessonPdfPage)
    → is_some (find_page asset_id n ps) ≡ true
    → is_some (find_page asset_id n (ps ++ qs)) ≡ true
unfolding find_page
find_page-append asset_id n [] qs h = cc
find_page-append asset_id n (p ∷ ps) qs h = ground (arith, find_page-append asset_id n ps qs)

find_page-append_self :
    (asset_id : GoString) (n : ℕ) (ps : List LessonPdfPage) (p : LessonPdfPage)
    → is_page asset_id n p ≡ true
    → is_some (find_page asset_id n (ps ++ p ∷ [])) ≡ true
unfolding find_page
find_page-append_self asset_id n [] p h = rw h refl
find_page-append_self asset_id n (q ∷ ps) p h = elim (Bool-cases (is_page asset_id n q)) [
  | inl here ↦ rw here refl
  | inr other ↦ rw other (find_page-append_self asset_id n ps p h)
]

abbrev pub Covered : GoString → List LessonPdfPage → PageJob → Type 0
Covered asset_id ps job = is_some (find_page asset_id job.0 ps) ≡ true

-- No two rows are the same page of the same asset.
unfoldable pub PagesDiffer : List LessonPdfPage → Type 0
PagesDiffer [] = Unit {0}
PagesDiffer (p ∷ ps) = (find_page p.asset_id p.page_number ps ≡ none) × PagesDiffer ps

find_page-append_none :
    (asset_id : GoString) (n : ℕ) (ps : List LessonPdfPage) (p : LessonPdfPage)
    → find_page asset_id n ps ≡ none
    → is_page asset_id n p ≡ false
    → find_page asset_id n (ps ++ p ∷ []) ≡ none
unfolding find_page
find_page-append_none asset_id n [] p h other = rw other refl
find_page-append_none asset_id n (q ∷ ps) p h other = elim (Bool-cases (is_page asset_id n q)) [
  | inl here ↦ absurd (let e : some q ≡ none = rw here at h in cc)
  | inr no_page ↦ rw no_page (find_page-append_none asset_id n ps p (rw no_page at h) other)
]

other_page :
    (asset_id : GoString) (n : ℕ) (p q : LessonPdfPage)
    → is_page asset_id n p ≡ true
    → is_page asset_id n q ≡ false
    → is_page q.asset_id q.page_number p ≡ false
other_page asset_id n p q is_n other = elim (Bool-cases (is_page q.asset_id q.page_number p)) [
  | inl same ↦
      let of_p = (is_page_iff asset_id n p).0 is_n in
      let of_q = (is_page_iff q.asset_id q.page_number p).0 same in
      let is_q = (is_page_iff asset_id n q).1 (sym of_q.0 ∙ of_p.0, sym of_q.1 ∙ of_p.1) in
      absurd (cc (is_q, other))
  | inr differs ↦ differs
]

PagesDiffer-append :
    (asset_id : GoString) (n : ℕ) (ps : List LessonPdfPage) (p : LessonPdfPage)
    → is_page asset_id n p ≡ true
    → find_page asset_id n ps ≡ none
    → PagesDiffer ps
    → PagesDiffer (ps ++ p ∷ [])
unfolding PagesDiffer find_page
PagesDiffer-append asset_id n [] p is_n absent h = (refl, tt)
PagesDiffer-append asset_id n (q ∷ ps) p is_n absent h = elim (Bool-cases (is_page asset_id n q)) [
  | inl here ↦ absurd (let e : some q ≡ none = rw here at absent in cc)
  | inr other ↦ (
    find_page-append_none q.asset_id q.page_number ps p h.0 (other_page asset_id n p q is_n other),
    PagesDiffer-append asset_id n ps p is_n (rw other at absent) h.1,
  )
]

module _ (s : Services) (asset_id bucket : GoString) where
  save_single_page-keeps :
      (n : ℕ) (image : GoString) (d : Db) (job : PageJob)
      → Covered asset_id d.pages job
      → Covered asset_id (save_single_page s asset_id n image bucket d).1.pages job
  save_single_page-keeps n image d job h =
      elim ((save_single_page_lem s asset_id n image bucket d).1) [
        | inl same ↦ rw same.0 h
        | inr (p, added, is_n, absent) ↦ rw added (find_page-append asset_id job.0 d.pages _ h)
      ]

  save_single_page-covers :
      (n : ℕ) (image : GoString) (d : Db)
      → (save_single_page s asset_id n image bucket d).0 ≡ value tt
      → Covered asset_id (save_single_page s asset_id n image bucket d).1.pages (n, image)
  save_single_page-covers n image d saved =
      elim ((save_single_page_lem s asset_id n image bucket d).1) [
        | inl same ↦ rw same.0 (same.1 saved)
        | inr (p, added, is_n, absent) ↦ rw added (find_page-append_self asset_id n d.pages p is_n)
      ]

  save_single_page-PagesDiffer :
      (n : ℕ) (image : GoString) (d : Db)
      → PagesDiffer d.pages
      → PagesDiffer (save_single_page s asset_id n image bucket d).1.pages
  save_single_page-PagesDiffer n image d h =
      elim ((save_single_page_lem s asset_id n image bucket d).1) [
        | inl same ↦ rw same.0 h
        | inr (p, added, is_n, absent) ↦
            rw added (PagesDiffer-append asset_id n d.pages p is_n absent h)
      ]

  save_jobs-keeps :
      (jobs : List PageJob) (d : Db) (job : PageJob)
      → Covered asset_id d.pages job
      → Covered asset_id (save_jobs s asset_id bucket jobs d).1.pages job
  unfolding save_jobs
  save_jobs-keeps [] d job h = h
  save_jobs-keeps ((n, image) ∷ jobs) d job h =
      save_jobs-keeps jobs _ job (save_single_page-keeps n image d job h)

  one_if_saved_cases :
      (answer : Answer (Unit {0})) → (answer ≡ value tt) ⊎ (one_if_saved answer ≡ 0)
  one_if_saved_cases (value tt) = inl refl
  one_if_saved_cases missing = inr refl
  one_if_saved_cases (broken e) = inr refl

  -- At most the number of the pages is counted.
  pub save_jobs-le :
      (jobs : List PageJob) (d : Db) → (save_jobs s asset_id bucket jobs d).0 ≤ length jobs
  unfolding save_jobs
  save_jobs-le [] d = omega arith
  save_jobs-le ((n, image) ∷ jobs) d =
      elim (one_if_saved_cases (save_single_page s asset_id n image bucket d).0) [
        | inl saved ↦
            rw saved
              (omega (arith, save_jobs-le jobs (save_single_page s asset_id n image bucket d).1))
        | inr lost ↦
            rw lost
              (omega (arith, save_jobs-le jobs (save_single_page s asset_id n image bucket d).1))
      ]

  -- For the jobs of any pages in any order, whatever fails: if as many pages are counted as there
  -- are jobs, each of them has a row.
  pub save_jobs-Covered :
      (jobs : List PageJob) (d : Db)
      → (save_jobs s asset_id bucket jobs d).0 ≡ length jobs
      → All (Covered asset_id (save_jobs s asset_id bucket jobs d).1.pages) jobs
  unfolding save_jobs
  save_jobs-Covered [] d h = tt
  save_jobs-Covered ((n, image) ∷ jobs) d h =
      let after = (save_single_page s asset_id n image bucket d).1 in
      let counted = λ (saved : (save_single_page s asset_id n image bucket d).0 ≡ value tt).
        let sum : 1 + (save_jobs s asset_id bucket jobs after).0 ≡ suc (length jobs) =
          rw saved at h in
        let enough : (save_jobs s asset_id bucket jobs after).0 ≡ length jobs = omega arith in
        enough in
      let short = λ (lost : one_if_saved (save_single_page s asset_id n image bucket d).0 ≡ 0).
        let sum : 0 + (save_jobs s asset_id bucket jobs after).0 ≡ suc (length jobs) =
          rw lost at h in
        let no_way : ⊥ = omega (arith, save_jobs-le jobs after) in no_way in
      elim (one_if_saved_cases (save_single_page s asset_id n image bucket d).0) [
        | inl saved ↦ (
          save_jobs-keeps jobs after (n, image) (save_single_page-covers n image d saved),
          save_jobs-Covered jobs after (counted saved),
        )
        | inr lost ↦ absurd (short lost)
      ]

  -- Whatever fails, in any order of the jobs: no page of an asset gets a second row.
  pub save_jobs-PagesDiffer :
      (jobs : List PageJob) (d : Db)
      → PagesDiffer d.pages
      → PagesDiffer (save_jobs s asset_id bucket jobs d).1.pages
  unfolding save_jobs
  save_jobs-PagesDiffer [] d h = h
  save_jobs-PagesDiffer ((n, image) ∷ jobs) d h =
      save_jobs-PagesDiffer jobs _ (save_single_page-PagesDiffer n image d h)

  pub save_jobs-SameTables :
      (jobs : List PageJob) (d : Db) → SameTables d (save_jobs s asset_id bucket jobs d).1
  unfolding save_jobs
  save_jobs-SameTables [] d = (refl, refl)
  save_jobs-SameTables ((n, image) ∷ jobs) d =
      let one = (save_single_page_lem s asset_id n image bucket d).0 in
      let rest = save_jobs-SameTables jobs (save_single_page s asset_id n image bucket d).1 in
      (rest.0 ∙ one.0, rest.1 ∙ one.1)

  save_single_page-again :
      (n : ℕ) (image : GoString) (d : Db)
      → Covered asset_id d.pages (n, image)
      → (save_single_page s asset_id n image bucket d).1 ≡ called d
  unfolding save_single_page get_pdf_page_by_asset_and_number save_missing_page
  save_single_page-again n image d covered = elim (Bool-cases (is_down s d)) [
    | inl down ↦ rw down refl
    | inr up ↦ rw up elim (Option-cases (find_page asset_id n d.pages)) [
      | inl absent ↦ absurd (let e : false ≡ true = rw absent at covered in cc)
      | inr (p, e) ↦ rw e refl
    ]
  ]

  -- Pages that have a row are neither uploaded nor written again.
  save_jobs-again :
      (jobs : List PageJob) (d : Db)
      → All (Covered asset_id d.pages) jobs
      → (save_jobs s asset_id bucket jobs d).1 ≡ record d { calls = length jobs + d.calls }
  unfolding save_jobs
  save_jobs-again [] d covered =
      let e : d.calls ≡ 0 + d.calls = omega arith in ap (λ (k : ℕ). record d { calls = k }) e
  save_jobs-again ((n, image) ∷ jobs) d covered = rw (save_single_page-again n image d covered.0) (
      save_jobs-again jobs (called d) covered.1
      ∙ ap (λ (k : ℕ). record d { calls = k }) (omega arith))

  -- Once a run of the jobs has counted each of them, a further run, whatever fails, uploads nothing
  -- and leaves every table as it is.
  pub save_jobs_twice :
      (jobs : List PageJob) (d : Db)
      → (save_jobs s asset_id bucket jobs d).0 ≡ length jobs
      → let after = (save_jobs s asset_id bucket jobs d).1 in
        (save_jobs s asset_id bucket jobs after).1
        ≡ record after { calls = length jobs + after.calls }
  save_jobs_twice jobs d all = save_jobs-again jobs _ (save_jobs-Covered jobs d all)
