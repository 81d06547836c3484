-- ===== src/Pdf/Retired.antt =====
-- What CleanupPermanentlyFailedAssets achieves, and what becomes of an asset whose document cannot be
-- converted, in pdf_processor_usecase.go.
use memberclass_backend_gola.Pdf.Pages.{failure_text}
use memberclass_backend_gola.Pdf.Process.{
  process_lesson_with_repo, process_prepared, finish_conversion, prepare_asset,
  convert_pdf_to_images, internal,
}
use memberclass_backend_gola.Common.{All-sort_by, All-filter_by, All-implies, some}
use memberclass_backend_gola.Common.{
  ◌≡◌, refl, sym, ap, ◌∙◌, Bool, true, false, ◌&&◌, ◌||◌, List, [], ◌∷◌, All-filter_by, All-implies,
  All-sort_by, GoString, ◌===◌,
}
use memberclass_backend_gola.Pdf.{
  broken, LessonPdfAsset, Db, Services, is_failed, is_down, update_pdf_asset_status, value, Failure,
  broken, find_asset, failed, Answer,
}
use memberclass_backend_gola.Pdf.Outcome.{
  LeavesTables, prepare_asset-HasRow, convert_pdf_to_images-LeavesTables, set_own_row,
}
use memberclass_backend_gola.Pdf.Cleanup.{is_permanent_error}

-- A permanent error of an asset with this id stands in the list.
retires : GoString → List LessonPdfAsset → Bool
retires id [] = false
retires id (a ∷ rest) = (is_permanent_error a.error && (a.id === id)) || retires id rest

abbrev IsDue : List LessonPdfAsset → LessonPdfAsset → Type 0
IsDue rest x =
    is_failed x.status ≡ true → is_permanent_error x.error ≡ true → retires x.id rest ≡ true

module _ (s : Services) where
  -- A lesson whose document cannot be converted: the caller gets one error, and the lesson's asset is
  -- failed with the text of what went wrong, if the database takes the update.
  pub process_lesson_with_repo-failed :
      (lesson_id url : GoString) (asset : LessonPdfAsset) (d d1 d2 : Db) (f : Failure)
      → prepare_asset s lesson_id d ≡ (value (asset, url), d1)
      → convert_pdf_to_images s url d1 ≡ (broken f, d2)
      → s.down d2.bucket d2.calls ≡ false
      → let r = process_lesson_with_repo s lesson_id d in
        (r.0 ≡ broken (internal "error converting PDF to images"))
        × (row : LessonPdfAsset) × (find_asset lesson_id r.1.assets ≡ some row)
        × (row.status ≡ failed)
        × (row.error ≡ some (failure_text f))
  unfolding process_lesson_with_repo process_prepared finish_conversion update_pdf_asset_status
      is_down LeavesTables
  process_lesson_with_repo-failed lesson_id url asset d d1 d2 f prepared converted up =
      let (row, found, own) = prepare_asset-HasRow s lesson_id d d1 asset url prepared in
      let left = convert_pdf_to_images-LeavesTables s url d1 in
      let still : find_asset lesson_id d2.assets ≡ some row =
        ap (λ (r : Answer (List GoString) × Db). find_asset lesson_id r.1.assets) (sym converted)
        ∙ ap (find_asset lesson_id) left.0.0
        ∙ found in
      rw (prepared, converted, up)
        (refl, _, set_own_row asset.id lesson_id _ (λ a. refl) d2.assets row still own, refl, refl)
