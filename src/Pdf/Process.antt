-- ===== src/Pdf/Process.antt =====
-- Processing a lesson's document: ProcessLesson, ProcessAllPendingLessons, RetryFailedAssets,
-- RegeneratePDF and their parts in internal/domain/usecases/lessons/pdf_processor_usecase.go, and
-- FindByLessonID of internal/infrastructure/adapters/repository/lesson/lesson_repo_resolver.go. The
-- databases stand in a list, the default one first. The workers of a batch serve one lesson after
-- another, in the order of the list, and the context is not cancelled.
use memberclass_backend_gola.Common.{
  ℕ, String, Bool, false, Option, none, some, List, [], ◌∷◌, ◌++◌, map, ltb, if◌then◌else◌, length,
  filter_by, GoString, str,
}
use memberclass_backend_gola.Pdf.{
  AssetStatus, Lesson, LessonPdfAsset, Db, Failure, Answer, Services, M, pure, after_answer, ◌>>=◌,
  called, has_suffix, get_by_id, get_by_id_with_pdf_asset, get_pending_pdf_lessons,
  get_pdf_asset_by_lesson_id, create_pdf_asset, update_pdf_asset, update_pdf_asset_status,
  get_failed_pdf_assets, delete_pdf_pages_by_asset_id, pending, processing, done, partial, failed,
  member_class, value, missing, broken, get_pdf_pages_by_asset_id, LessonPdfPage,
}
use memberclass_backend_gola.Pdf.Pages.{
  wrap, optional, answered, extract_bucket_from_media_url, save_pages_directly_with_repo,
  failure_text,
}

pub record ProcessResult : Type 0 where
  pub success : Bool
  pub total_pages : ℕ
  pub processed_pages : ℕ
  pub error : GoString

pub record BatchProcessResult : Type 0 where
  pub processed : ℕ
  pub total : ℕ
  pub results : List ProcessResult

abbrev pub lesson_not_found : Failure
lesson_not_found = member_class 404 (str "lesson not found")

abbrev pub no_pdf : Failure
no_pdf = member_class 400 (str "lesson does not have a PDF media URL")

-- An error is replaced: one for a missing row, one for the others.
abbrev pub replaced : {A : Type 0} → Failure → Failure → Answer A → Answer A
replaced if_missing otherwise (value a) = value a
replaced if_missing otherwise missing = broken if_missing
replaced if_missing otherwise (broken e) = broken otherwise

abbrev pub internal : String → Failure
internal text = member_class 500 (str text)

abbrev pub pdf_url : Option GoString → Answer GoString
pdf_url none = broken no_pdf
pdf_url (some url) = if has_suffix (str ".pdf") url then value url else broken no_pdf

abbrev pub final_status : ℕ → ℕ → AssetStatus
final_status processed total = if ltb processed total then partial else done

-- The text that is stored with a failed asset.
abbrev pub answer_text : {A : Type 0} → Answer A → GoString
answer_text (value _) = []
answer_text missing = []
answer_text (broken e) = failure_text e

abbrev pub Databases : Type 0
Databases = List Db

module _ (s : Services) where
  abbrev pub service : {A : Type 0} → String → (ℕ → Answer A) → M A
  service text request d = (wrap text (request d.calls), called d)

  unfoldable pub convert_pdf_to_images : GoString → M (List GoString)
  convert_pdf_to_images url = do
    granted ← service "failed to get token and create task: " s.get_token_and_create_task
    filename ← service "failed to add file: " (λ n. s.add_file n granted.0 granted.1 url)
    ready ← service "failed to process task: " (λ n. s.process_task n granted.0 granted.1 filename)
    zip_data ← service "failed to download task: " (λ n. s.download_task n granted.0 granted.1)
    λ d. (wrap "failed to extract images: " (s.extract_images zip_data), d)

  -- The asset as it stands in memory: its times are those of the row that was read.
  unfoldable pub create_or_update_with :
      GoString → GoString → Option LessonPdfAsset → M LessonPdfAsset
  unfolding create_pdf_asset update_pdf_asset
  create_or_update_with lesson_id url none d =
      let asset : LessonPdfAsset = record {
        id = s.uuid d.calls;
        lesson_id = lesson_id;
        source_pdf_url = url;
        total_pages = none;
        status = processing;
        error = none;
        created_at = s.now d.calls;
        updated_at = s.now d.calls;
      } in
      after_answer (create_pdf_asset s asset d) (λ _. pure asset)
  create_or_update_with lesson_id url (some row) d =
      let asset : LessonPdfAsset = record row { status = processing; error = none } in
      after_answer (update_pdf_asset s asset d) (λ _. pure asset)

  -- createOrUpdatePDFAsset, on a database that is known.
  unfoldable pub create_or_update_pdf_asset : GoString → GoString → M LessonPdfAsset
  unfolding get_pdf_asset_by_lesson_id create_or_update_with
  create_or_update_pdf_asset lesson_id url = do
    existing ← answered optional (get_pdf_asset_by_lesson_id s lesson_id)
    create_or_update_with lesson_id url existing

  -- Steps 2 to 4 of ProcessLesson, the last first.
  unfoldable pub prepare_with_url : GoString → GoString → M (LessonPdfAsset × GoString)
  unfolding create_or_update_pdf_asset
  prepare_with_url lesson_id url = do
    asset ←
        answered
          (replaced (internal "error creating PDF asset") (internal "error creating PDF asset"))
          (create_or_update_pdf_asset lesson_id url)
    pure (asset, url)

  unfoldable pub prepare_with_lesson :
      GoString → Lesson × Option LessonPdfAsset → M (LessonPdfAsset × GoString)
  unfolding prepare_with_url
  prepare_with_lesson lesson_id lesson d =
      after_answer (pdf_url lesson.0.media_url, d) (prepare_with_url lesson_id)

  unfoldable pub prepare_asset : GoString → M (LessonPdfAsset × GoString)
  unfolding get_by_id_with_pdf_asset prepare_with_lesson
  prepare_asset lesson_id = do
    lesson ←
        answered (replaced lesson_not_found (internal "error getting lesson"))
          (get_by_id_with_pdf_asset s lesson_id)
    prepare_with_lesson lesson_id lesson

  -- Step 7, after n of the images were saved.
  unfoldable pub finish_asset : GoString → ℕ → ℕ → M ProcessResult
  unfolding update_pdf_asset_status
  finish_asset asset_id processed total = do
    updated ←
        answered
          (replaced (internal "error updating PDF asset status")
            (internal "error updating PDF asset status"))
          (update_pdf_asset_status s asset_id (final_status processed total) (some total) none)
    pure (record {
      success = ltb 0 processed;
      total_pages = total;
      processed_pages = processed;
      error = [];
    })

  -- Steps 5 to 7: an asset whose document cannot be converted becomes failed. Saving the pages gives
  -- no error, so its branch is left out.
  unfoldable pub finish_conversion :
      LessonPdfAsset → GoString → Answer (List GoString) → M ProcessResult
  unfolding update_pdf_asset_status save_pages_directly_with_repo extract_bucket_from_media_url
      finish_asset
  finish_conversion asset url (value images) d =
      let saved =
        save_pages_directly_with_repo s asset.id images (extract_bucket_from_media_url s url) d in
      finish_asset asset.id saved.0 (length images) saved.1
  finish_conversion asset url missing d = (missing, d)
  finish_conversion asset url (broken e) d =
      let updated = update_pdf_asset_status s asset.id failed none (some (failure_text e)) d in
      (broken (internal "error converting PDF to images"), updated.1)

  unfoldable pub process_prepared : LessonPdfAsset × GoString → M ProcessResult
  unfolding convert_pdf_to_images finish_conversion
  process_prepared (asset, url) d =
      let images = convert_pdf_to_images url d in finish_conversion asset url images.0 images.1

  -- ProcessLesson, on the lesson's database.
  unfoldable pub process_lesson_with_repo : GoString → M ProcessResult
  unfolding prepare_asset process_prepared
  process_lesson_with_repo lesson_id = do
    prepared ← prepare_asset lesson_id
    process_prepared prepared

  -- FindByLessonID, and what is done with the database it returns.
  abbrev pub when_found :
      {A : Type 0}
      → Answer Lesson
      → Answer A × Databases
      → Answer A × Databases
      → Answer A × Databases
  when_found (value lesson) here elsewhere = here
  when_found missing here elsewhere = elsewhere
  when_found (broken e) here elsewhere = elsewhere

  unfoldable pub on_lesson_repo : {A : Type 0} → GoString → M A → Databases → Answer A × Databases
  unfolding get_by_id
  on_lesson_repo lesson_id action [] = (broken lesson_not_found, [])
  on_lesson_repo lesson_id action (d ∷ ds) =
      let found = get_by_id s lesson_id d in
      let acted = action found.1 in
      let rest = on_lesson_repo lesson_id action ds in
      when_found found.0 (acted.0, acted.1 ∷ ds) (rest.0, found.1 ∷ rest.1)

  unfoldable pub process_lesson : GoString → Databases → Answer ProcessResult × Databases
  unfolding on_lesson_repo process_lesson_with_repo
  process_lesson lesson_id = on_lesson_repo lesson_id (process_lesson_with_repo lesson_id)

  abbrev pub result_of : Answer ProcessResult → ProcessResult
  result_of (value r) = r
  result_of other = record {
    success = false;
    total_pages = 0;
    processed_pages = 0;
    error = answer_text other;
  }

  -- The jobs of a batch, one after another.
  unfoldable pub process_each : List GoString → Databases → List ProcessResult × Databases
  unfolding process_lesson
  process_each [] ds = ([], ds)
  process_each (lesson_id ∷ more) ds =
      let one = process_lesson lesson_id ds in
      let rest = process_each more one.1 in (result_of one.0 ∷ rest.0, rest.1)

  -- What a query finds in all databases; one that fails is passed over.
  unfoldable pub collect : {A : Type 0} → M (List A) → Databases → List A × Databases
  collect read [] = ([], [])
  collect read (d ∷ ds) =
      let here = read d in
      let rest = collect read ds in
      (
        elim here.0 [ value rows ↦ rows ++ rest.0 | missing ↦ rest.0 | broken e ↦ rest.0 ],
        here.1 ∷ rest.1,
      )

  unfoldable pub batch_of : List GoString → Databases → BatchProcessResult × Databases
  unfolding process_each
  batch_of lesson_ids ds =
      let all = process_each lesson_ids ds in
      (
        record {
          processed = length (filter_by (λ r. r.success) all.0);
          total = length lesson_ids;
          results = all.0;
        },
        all.1,
      )

  unfoldable pub process_all_pending_lessons : ℕ → Databases → BatchProcessResult × Databases
  unfolding collect get_pending_pdf_lessons batch_of
  process_all_pending_lessons limit ds =
      let pending_lessons = collect (get_pending_pdf_lessons s limit) ds in
      batch_of (map (λ (l : Lesson). l.id) pending_lessons.0) pending_lessons.1

  unfoldable pub retry_failed_assets : ℕ → Databases → BatchProcessResult × Databases
  unfolding collect get_failed_pdf_assets batch_of
  retry_failed_assets limit ds =
      let failed_assets = collect (get_failed_pdf_assets s limit) ds in
      batch_of (map (λ (a : LessonPdfAsset). a.lesson_id) failed_assets.0) failed_assets.1

  -- The new asset has no id of its own.
  unfoldable pub reset_asset : GoString → GoString → Option LessonPdfAsset → M (Unit {0})
  unfolding delete_pdf_pages_by_asset_id update_pdf_asset_status create_pdf_asset
  reset_asset lesson_id url (some asset) d =
      let deleted = delete_pdf_pages_by_asset_id s asset.id d in
      let reset = update_pdf_asset_status s asset.id pending none none deleted.1 in
      (value tt, reset.1)
  reset_asset lesson_id url none d =
      answered
        (replaced (internal "error creating PDF asset") (internal "error creating PDF asset"))
        (create_pdf_asset s (record {
          id = [];
          lesson_id = lesson_id;
          source_pdf_url = url;
          total_pages = none;
          status = pending;
          error = none;
          created_at = 0;
          updated_at = 0;
        }))
        d

  unfoldable pub regenerate_lesson : GoString → Lesson × Option LessonPdfAsset → M (Unit {0})
  unfolding reset_asset
  regenerate_lesson lesson_id lesson d =
      after_answer (pdf_url lesson.0.media_url, d) (λ url. reset_asset lesson_id url lesson.1)

  unfoldable pub regenerate_with_repo : GoString → M (Unit {0})
  unfolding get_by_id_with_pdf_asset regenerate_lesson
  regenerate_with_repo lesson_id = do
    lesson ←
        answered (replaced lesson_not_found (internal "error getting lesson"))
          (get_by_id_with_pdf_asset s lesson_id)
    regenerate_lesson lesson_id lesson

  unfoldable pub regenerate_pdf : GoString → Databases → Answer (Unit {0}) × Databases
  unfolding on_lesson_repo regenerate_with_repo
  regenerate_pdf lesson_id = on_lesson_repo lesson_id (regenerate_with_repo lesson_id)

  -- ValidateLessonHasPDF
  unfoldable pub validate_lesson_has_pdf : GoString → Databases → Answer (Unit {0}) × Databases
  unfolding on_lesson_repo get_by_id
  validate_lesson_has_pdf lesson_id = on_lesson_repo lesson_id do
    lesson ←
        answered (replaced lesson_not_found (internal "error getting lesson"))
          (get_by_id s lesson_id)
    url ← λ d. (pdf_url lesson.media_url, d)
    pure tt

  -- CreateOrUpdatePDFAsset, SavePagesDirectly and GetLessonWithPDFAsset: the parts above, for callers
  -- that know the lesson only.
  unfoldable pub create_or_update_anywhere :
      GoString → GoString → Databases → Answer LessonPdfAsset × Databases
  unfolding on_lesson_repo create_or_update_pdf_asset
  create_or_update_anywhere lesson_id url =
      on_lesson_repo lesson_id (create_or_update_pdf_asset lesson_id url)

  unfoldable pub save_pages_directly :
      GoString → GoString → List GoString → GoString → Databases → Answer ℕ × Databases
  unfolding on_lesson_repo save_pages_directly_with_repo
  save_pages_directly asset_id lesson_id images bucket = on_lesson_repo lesson_id (λ d.
      let saved = save_pages_directly_with_repo s asset_id images bucket d in
      (value saved.0, saved.1))

  unfoldable pub get_lesson_with_pdf_asset :
      GoString → Databases → Answer (Lesson × Option LessonPdfAsset) × Databases
  unfolding on_lesson_repo get_by_id_with_pdf_asset
  get_lesson_with_pdf_asset lesson_id = on_lesson_repo lesson_id (
      answered (replaced lesson_not_found (internal "error getting lesson"))
        (get_by_id_with_pdf_asset s lesson_id))

  abbrev pub rows_of : {A : Type 0} → Answer (List A) → List A
  rows_of (value rows) = rows
  rows_of missing = []
  rows_of (broken e) = []

  abbrev pub first_pages :
      Answer (List LessonPdfPage)
      → List LessonPdfPage × Databases
      → List LessonPdfPage × Databases
      → List LessonPdfPage × Databases
  first_pages (value []) here later = later
  first_pages (value (p ∷ ps)) here later = here
  first_pages missing here later = later
  first_pages (broken e) here later = later

  -- GetPDFPagesByAssetID: the pages of the first database that has any.
  unfoldable pub get_pdf_pages_anywhere : GoString → Databases → List LessonPdfPage × Databases
  unfolding get_pdf_pages_by_asset_id
  get_pdf_pages_anywhere asset_id [] = ([], [])
  get_pdf_pages_anywhere asset_id (d ∷ ds) =
      let found = get_pdf_pages_by_asset_id s asset_id d in
      let rest = get_pdf_pages_anywhere asset_id ds in
      first_pages found.0 (rows_of found.0, found.1 ∷ ds) (rest.0, found.1 ∷ rest.1)
