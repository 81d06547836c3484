-- ===== src/Pdf/Result.antt =====
-- A result of ProcessLesson against the rows that it leaves.
use memberclass_backend_gola.Common.{
  ℕ, ◌≤◌, ◌<◌, ◌≡◌, refl, sym, ap, ◌∙◌, ◌⊎◌, inl, inr, true, none, some, List, [], ◌∷◌, arith, ltb,
  Bool-cases, is_some, length, GoString, str,
}
use memberclass_backend_gola.Pdf.{
  Lesson, LessonPdfAsset, Db, Answer, Services, M, find_asset, find_page, is_down, get_by_id,
  update_pdf_asset_status, done, partial, member_class, value, missing, broken,
}
use memberclass_backend_gola.Pdf.Pages.{
  page_jobs, save_jobs, save_pages_directly_with_repo, extract_bucket_from_media_url,
}
use memberclass_backend_gola.Pdf.Covering.{save_jobs-le, save_jobs-Covered, save_jobs-SameTables}
use memberclass_backend_gola.Pdf.Process.{
  ProcessResult, final_status, convert_pdf_to_images, prepare_asset, process_prepared, finish_asset,
  finish_conversion, process_lesson_with_repo, process_lesson, Databases, on_lesson_repo,
  when_found,
}
use memberclass_backend_gola.Pdf.Outcome.{
  HasRow, LeavesTables, after_answer-eq-value, value_pair_eq, no_value, set_own_row,
  page_jobs-length, page_jobs-Covered, prepare_asset-HasRow, convert_pdf_to_images-LeavesTables,
}

-- The asset of the lesson says what the result says, and an asset that is done has all its pages.
pub record IsRecorded (lesson_id : GoString) (r : ProcessResult) (d : Db) : Type 0 where
  pub asset : LessonPdfAsset
  pub found : find_asset lesson_id d.assets ≡ some asset
  pub within : r.processed_pages ≤ r.total_pages
  pub status : asset.status ≡ final_status r.processed_pages r.total_pages
  pub total : asset.total_pages ≡ some r.total_pages
  pub no_error : asset.error ≡ none
  pub all_pages :
      asset.status ≡ done
      → (n : ℕ) → 0 < n
      → n ≤ r.total_pages
      → is_some (find_page asset.id n d.pages) ≡ true

done_counts :
    (processed total : ℕ)
    → processed ≤ total
    → final_status processed total ≡ done
    → processed ≡ total
done_counts processed total within is_done = elim (Bool-cases (ltb processed total)) [
  | inl less ↦ absurd (let e : partial ≡ done = rw less at is_done in cc)
  | inr all ↦ ground arith
]

module _ (s : Services) (lesson_id : GoString) where
  finish_asset-IsRecorded :
      (id : GoString) (processed total : ℕ) (d e : Db) (r : ProcessResult)
      → HasRow lesson_id id d
      → processed ≤ total
      → (processed ≡ total → (n : ℕ) → 0 < n → n ≤ total → is_some (find_page id n d.pages) ≡ true)
      → finish_asset s id processed total d ≡ (value r, e)
      → IsRecorded lesson_id r e
  unfolding finish_asset update_pdf_asset_status
  finish_asset-IsRecorded id processed total d e r (row, found, own) within pages h =
      elim (Bool-cases (is_down s d)) [
        | inl down ↦ absurd (no_value (rw down at h))
        | inr up ↦
            let same = value_pair_eq (rw up at h) in
            rw (← same.0, ← same.1)
              record {
                asset = _;
                found = set_own_row id lesson_id _ (λ a. refl) d.assets row found own;
                within = within;
                status = refl;
                total = refl;
                no_error = refl;
                all_pages = λ is_done n low high.
                    rw own (pages (done_counts processed total within is_done) n low high);
              }
      ]

  saved_pages :
      (asset : LessonPdfAsset) (images : List GoString) (bucket : GoString) (d : Db)
      → (save_jobs s asset.id bucket (page_jobs 0 images) d).0 ≡ length images
      → (n : ℕ) → 0 < n
      → n ≤ length images
      → is_some (find_page asset.id n (save_jobs s asset.id bucket (page_jobs 0 images) d).1.pages)
        ≡ true
  saved_pages asset images bucket d all n low high =
      page_jobs-Covered asset.id _ 0 images
        (save_jobs-Covered s asset.id bucket (page_jobs 0 images) d
          (all ∙ sym (page_jobs-length 0 images)))
        n low (omega arith)

  finish_conversion-IsRecorded :
      (asset : LessonPdfAsset) (url : GoString) (images : Answer (List GoString)) (d e : Db)
      (r : ProcessResult)
      → HasRow lesson_id asset.id d
      → finish_conversion s asset url images d ≡ (value r, e)
      → IsRecorded lesson_id r e
  unfolding finish_conversion save_pages_directly_with_repo
  finish_conversion-IsRecorded asset url (value images) d e r (row, found, own) h =
      let bucket = extract_bucket_from_media_url s url in
      let saved = save_jobs s asset.id bucket (page_jobs 0 images) d in
      let spared = save_jobs-SameTables s asset.id bucket (page_jobs 0 images) d in
      let few : saved.0 ≤ length images =
        omega (
          arith,
          save_jobs-le s asset.id bucket (page_jobs 0 images) d,
          page_jobs-length 0 images,
        ) in
      finish_asset-IsRecorded asset.id saved.0 (length images) saved.1 e r
        (row, ap (find_asset lesson_id) spared.0 ∙ found, own) few
        (saved_pages asset images bucket d) h
  finish_conversion-IsRecorded asset url missing d e r row h =
      absurd (let same : missing ≡ value r = ap (λ p. p.0) h in cc (same))
  finish_conversion-IsRecorded asset url (broken f) d e r row h = absurd (no_value h)

  process_lesson_with_repo-IsRecorded :
      (d e : Db) (r : ProcessResult)
      → process_lesson_with_repo s lesson_id d ≡ (value r, e)
      → IsRecorded lesson_id r e
  unfolding process_lesson_with_repo process_prepared LeavesTables
  process_lesson_with_repo-IsRecorded d e r h =
      let before = prepare_asset s lesson_id d in
      let (prepared, was_prepared, processed) =
        after_answer-eq-value before (process_prepared s) h in
      let (row, found, own) =
        prepare_asset-HasRow s lesson_id d before.1 prepared.0 prepared.1
          (λ i. (was_prepared i, before.1)) in
      let images = convert_pdf_to_images s prepared.1 before.1 in
      let left = convert_pdf_to_images-LeavesTables s prepared.1 before.1 in
      finish_conversion-IsRecorded prepared.0 prepared.1 images.0 images.1 e r
        (row, ap (find_asset lesson_id) left.0.0 ∙ found, own) processed

-- One of the databases.
unfoldable pub AnyDb : (Db → Type 0) → Databases → Type 0
AnyDb P [] = ⊥
AnyDb P (d ∷ ds) = P d ⊎ AnyDb P ds

module _ (s : Services) {A : Type 0} (P : A → Db → Type 0) (lesson_id : GoString) (action : M A)
    (act : (a : A) (d e : Db) → action d ≡ (value a, e) → P a e) where
  on_lesson_repo-AnyDb :
      (ds es : Databases) (a : A)
      → on_lesson_repo s lesson_id action ds ≡ (value a, es)
      → AnyDb (P a) es
  unfolding on_lesson_repo AnyDb
  on_lesson_repo-AnyDb [] es a h = absurd (
      let same : broken (member_class 404 (str "lesson not found")) ≡ value a = ap (λ p. p.0) h in
      cc (same))
  on_lesson_repo-AnyDb (d ∷ ds) es a h =
      let rest = on_lesson_repo s lesson_id action ds in
      after_found rest (λ b is_b. on_lesson_repo-AnyDb ds rest.1 b (λ i. (is_b i, rest.1)))
        (get_by_id s lesson_id d).0 h
    where
      after_found :
          (rest : Answer A × Databases)
          → ((b : A) → rest.0 ≡ value b → AnyDb (P b) rest.1)
          → (answer : Answer Lesson)
          → when_found s answer
              ((action (get_by_id s lesson_id d).1).0, (action (get_by_id s lesson_id d).1).1 ∷ ds)
              (rest.0, (get_by_id s lesson_id d).1 ∷ rest.1)
            ≡ (value a, es)
          → AnyDb (P a) es
      after_found rest ih (value lesson) done_here = rw (← ap (λ p. p.1) done_here) (
          inl (
            act a (get_by_id s lesson_id d).1 (action (get_by_id s lesson_id d).1).1
              (λ i. ((done_here i).0, (action (get_by_id s lesson_id d).1).1))))
      after_found rest ih missing elsewhere =
          rw (← ap (λ p. p.1) elsewhere) (inr (ih a (λ i. (elsewhere i).0)))
      after_found rest ih (broken e) elsewhere =
          rw (← ap (λ p. p.1) elsewhere) (inr (ih a (λ i. (elsewhere i).0)))

-- When ProcessLesson returns a result, one of the databases records it: the lesson's asset carries the
-- result's number of pages and no error, it is done if all of them were processed and partial if
-- fewer, and an asset that is done has a row for every page from the first to the last.
pub process_lesson-records :
    (s : Services) (lesson_id : GoString) (ds es : Databases) (r : ProcessResult)
    → process_lesson s lesson_id ds ≡ (value r, es)
    → AnyDb (IsRecorded lesson_id r) es
unfolding process_lesson
process_lesson-records s lesson_id ds es r h =
    on_lesson_repo-AnyDb s (IsRecorded lesson_id) lesson_id (process_lesson_with_repo s lesson_id)
      (λ r d e. process_lesson_with_repo-IsRecorded s lesson_id d e r) ds es r h
