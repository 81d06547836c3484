-- ===== src/Pdf/Cleanup.antt =====
-- The two clean-ups of internal/domain/usecases/lessons/pdf_processor_usecase.go: permanently failed
-- assets, and the pages of failed assets. Workers delete pages in the order of the list.
use memberclass_backend_gola.Common.{index_of}
use memberclass_backend_gola.Common.{
  ℕ, ◌+◌, Bool, false, ◌||◌, Option, none, some, List, [], ◌∷◌, ◌++◌, map, if◌then◌else◌, is_some,
  length, GoString, str,
}
use memberclass_backend_gola.Pdf.{
  LessonPdfAsset, LessonPdfPage, Db, Answer, Services, M, update_pdf_asset_status,
  get_failed_pdf_assets, get_pdf_pages_by_asset_id, delete_pdf_page, delete_pdf_pages_by_asset_id,
  permanently_failed, value, missing, broken,
}

unfoldable pub contains : GoString → GoString → Bool
unfolding index_of
contains text pattern = is_some (index_of pattern text)

unfoldable pub contains_any : GoString → List GoString → Bool
unfolding contains
contains_any text [] = false
contains_any text (p ∷ ps) = contains text p || contains_any text ps

abbrev pub permanent_patterns : List GoString
permanent_patterns =
    str "EmptyFile"
    ∷ str "Damaged file"
    ∷ str "Filesize exceeded"
    ∷ str "TaskLimit"
    ∷ str "403 Forbidden"
    ∷ str "404 Not Found"
    ∷ str "UploadError"
    ∷ []

unfoldable pub is_permanent_error : Option GoString → Bool
unfolding contains_any
is_permanent_error none = false
is_permanent_error (some text) = contains_any text permanent_patterns

pub record CleanupFailedResult : Type 0 where
  pub asset_id : GoString
  pub lesson_id : GoString
  pub error : GoString

abbrev pub text_or_empty : Option GoString → GoString
text_or_empty none = []
text_or_empty (some text) = text

abbrev pub permanent_text : Option GoString → GoString
permanent_text error = str "[permanently_failed] " ++ text_or_empty error

-- What an iteration adds to the list of results.
abbrev pub listed_if :
    Answer (Unit {0}) → LessonPdfAsset → List CleanupFailedResult → List CleanupFailedResult
listed_if (value _) a rest =
    record { asset_id = a.id; lesson_id = a.lesson_id; error = text_or_empty a.error } ∷ rest
listed_if missing a rest = rest
listed_if (broken e) a rest = rest

module _ (s : Services) where
  -- The body of the loop for an asset with a permanent error; a failing DELETE is only logged.
  unfoldable pub retire_asset : LessonPdfAsset → M (Unit {0})
  unfolding delete_pdf_pages_by_asset_id update_pdf_asset_status
  retire_asset a d =
      let deleted = delete_pdf_pages_by_asset_id s a.id d in
      update_pdf_asset_status s a.id permanently_failed none (some (permanent_text a.error))
        deleted.1

  unfoldable pub retire_assets : List LessonPdfAsset → Db → List CleanupFailedResult × Db
  unfolding retire_asset is_permanent_error
  retire_assets [] d = ([], d)
  retire_assets (a ∷ more) d =
      let retired = retire_asset a d in
      let after = retire_assets more (if is_permanent_error a.error then retired.1 else d) in
      (if is_permanent_error a.error then listed_if retired.0 a after.0 else after.0, after.1)

  -- CleanupPermanentlyFailedAssets on one database: the results, and the number of failed assets.
  -- The loop over what the query found.
  unfoldable pub retire_found :
      Answer (List LessonPdfAsset) → Db → (List CleanupFailedResult × ℕ) × Db
  unfolding retire_assets
  retire_found (value assets) d =
      let retired = retire_assets assets d in ((retired.0, length assets), retired.1)
  retire_found missing d = (([], 0), d)
  retire_found (broken e) d = (([], 0), d)

  unfoldable pub cleanup_permanently_failed_in : Db → (List CleanupFailedResult × ℕ) × Db
  unfolding get_failed_pdf_assets retire_found
  cleanup_permanently_failed_in d =
      let found = get_failed_pdf_assets s 0 d in retire_found found.0 found.1

  unfoldable pub cleanup_permanently_failed_assets :
      List Db → (List CleanupFailedResult × ℕ) × List Db
  unfolding cleanup_permanently_failed_in
  cleanup_permanently_failed_assets [] = (([], 0), [])
  cleanup_permanently_failed_assets (d ∷ ds) =
      let here = cleanup_permanently_failed_in d in
      let rest = cleanup_permanently_failed_assets ds in
      ((here.0.0 ++ rest.0.0, here.0.1 + rest.0.1), here.1 ∷ rest.1)

  unfoldable pub delete_pages : List LessonPdfPage → Db → Db
  unfolding delete_pdf_page
  delete_pages [] d = d
  delete_pages (p ∷ ps) d = delete_pages ps (delete_pdf_page s p.id d).1

  -- cleanupAssetPages; its error is only logged.
  unfoldable pub cleanup_asset_pages : LessonPdfAsset → Db → Db
  unfolding get_pdf_pages_by_asset_id delete_pages
  cleanup_asset_pages a d =
      let found = get_pdf_pages_by_asset_id s a.id d in
      elim found.0 [
        | value pages ↦ delete_pages pages found.1
        | missing ↦ found.1
        | broken e ↦ found.1
      ]

  unfoldable pub cleanup_each : List LessonPdfAsset → Db → Db
  unfolding cleanup_asset_pages
  cleanup_each [] d = d
  cleanup_each (a ∷ more) d = cleanup_each more (cleanup_asset_pages a d)

  unfoldable pub cleanup_found : Answer (List LessonPdfAsset) → Db → Db
  unfolding cleanup_each
  cleanup_found (value assets) d = cleanup_each assets d
  cleanup_found missing d = d
  cleanup_found (broken e) d = d

  unfoldable pub cleanup_orphaned_pages_in : Db → Db
  unfolding get_failed_pdf_assets cleanup_found
  cleanup_orphaned_pages_in d =
      let found = get_failed_pdf_assets s 0 d in cleanup_found found.0 found.1

  unfoldable pub cleanup_orphaned_pages : List Db → List Db
  unfolding cleanup_orphaned_pages_in
  cleanup_orphaned_pages ds = map cleanup_orphaned_pages_in ds
