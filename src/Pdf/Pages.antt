-- ===== src/Pdf/Pages.antt =====
-- Saving the pages of a document: saveSinglePage, savePagesDirectlyWithRepo and
-- extractBucketFromMediaURL of internal/domain/usecases/lessons/pdf_processor_usecase.go. Five workers
-- take the pages from a channel: the list of jobs is the order in which they do, each page is saved in
-- one step, and the context is not cancelled.
use memberclass_backend_gola.Common.{has_prefix, index_of}
use memberclass_backend_gola.Common.Decimal.{format_nat}
use memberclass_backend_gola.Common.{
  ℕ, suc, ◌+◌, String, Option, none, some, List, [], ◌∷◌, ◌++◌, if◌then◌else◌, is_some, length,
  drop, GoString, str, ◌===◌, is_empty, until,
}
use memberclass_backend_gola.Pdf.{
  pure, LessonPdfPage, Db, Failure, Answer, Services, M, ◌>>=◌, called, create_pdf_page,
  get_pdf_page_by_asset_and_number, member_class, plain, value, missing, broken,
}

abbrev pub failure_text : Failure → GoString
failure_text (member_class code message) = message
failure_text (plain message) = message

-- fmt.Errorf with %w.
abbrev pub wrap : {A : Type 0} → String → Answer A → Answer A
wrap text (value a) = value a
wrap text missing = broken (plain (str text))
wrap text (broken e) = broken (plain (str text ++ failure_text e))

-- A row that is not there is no error.
abbrev pub optional : {A : Type 0} → Answer A → Answer (Option A)
optional (value a) = value (some a)
optional missing = value none
optional (broken e) = broken e

abbrev pub answered : {A B : Type 0} → (Answer A → Answer B) → M A → M B
answered f m d = (f (m d).0, (m d).1)

abbrev pub data_url_prefix : GoString
data_url_prefix = str "data:image/jpeg;base64,"

unfoldable pub base64_data : GoString → GoString
unfolding has_prefix
base64_data image =
    if has_prefix data_url_prefix image then drop (length data_url_prefix) image else image

-- hostToBucket
unfoldable pub host_to_bucket : GoString → GoString
unfolding ◌===◌
host_to_bucket subdomain =
    if subdomain === str "storage"
    then str "memberclass"
    else (if subdomain === str "ephra"
        then str "ephra"
        else (if subdomain === str "celetusclass" then str "celetusclass" else subdomain))

unfoldable pub bucket_of_host : Option GoString → GoString
unfolding index_of until host_to_bucket
bucket_of_host none = []
bucket_of_host (some host) =
    if is_some (index_of (str ".") host) then host_to_bucket (until b'.' host) else []

-- A job of the channel: the number of the page and its image.
abbrev pub PageJob : Type 0
PageJob = ℕ × GoString

-- `for i, image := range images`, with page number i + 1.
unfoldable pub page_jobs : ℕ → List GoString → List PageJob
page_jobs i [] = []
page_jobs i (image ∷ images) = (suc i, image) ∷ page_jobs (suc i) images

unfoldable pub page_filename : GoString → ℕ → GoString
unfolding format_nat
page_filename asset_id n =
    str "lessons/" ++ (asset_id ++ (str "/page-" ++ (format_nat n ++ str ".jpg")))

abbrev pub one_if_saved : Answer (Unit {0}) → ℕ
one_if_saved (value _) = 1
one_if_saved missing = 0
one_if_saved (broken _) = 0

module _ (s : Services) where
  unfoldable pub extract_bucket_from_media_url : GoString → GoString
  unfolding has_prefix bucket_of_host
  extract_bucket_from_media_url media_url =
      if has_prefix (str "http") media_url then bucket_of_host (s.hostname media_url) else []

  -- UploadToBucket, or Upload where no bucket is known.
  unfoldable pub upload_image : GoString → GoString → GoString → M GoString
  upload_image bucket image filename d = (
    if is_empty bucket
        then s.upload d.calls image filename
        else s.upload_to_bucket d.calls bucket image filename,
    called (record d { uploads = d.uploads ++ (bucket, filename) ∷ [] }),
  )

  unfoldable pub insert_page : GoString → ℕ → GoString → M (Unit {0})
  unfolding create_pdf_page
  insert_page asset_id n url d =
      create_pdf_page s
        (record {
          id = s.uuid d.calls;
          asset_id = asset_id;
          page_number = n;
          image_url = url;
          created_at = 0;
          updated_at = 0;
        })
        d

  unfoldable pub save_missing_page :
      GoString → ℕ → GoString → GoString → Option LessonPdfPage → M (Unit {0})
  unfolding upload_image insert_page base64_data
  save_missing_page asset_id n image bucket (some page) = pure tt
  save_missing_page asset_id n image bucket none = do
    image_data ←
        λ d. (wrap "failed to decode base64 image: " (s.decode_string (base64_data image)), d)
    url ←
        answered (wrap "failed to upload image to storage: ")
          (upload_image bucket image_data (page_filename asset_id n))
    answered (wrap "failed to save page to database: ") (insert_page asset_id n url)

  -- `value` stands for (true, nil), an error for (false, err).
  unfoldable pub save_single_page : GoString → ℕ → GoString → GoString → M (Unit {0})
  unfolding get_pdf_page_by_asset_and_number save_missing_page
  save_single_page asset_id n image bucket = do
    existing ← answered optional (get_pdf_page_by_asset_and_number s asset_id n)
    save_missing_page asset_id n image bucket existing

  -- The number of pages that were saved; no error of a page is passed on.
  unfoldable pub save_jobs : GoString → GoString → List PageJob → Db → ℕ × Db
  save_jobs asset_id bucket [] d = (0, d)
  save_jobs asset_id bucket ((n, image) ∷ jobs) d =
      let saved = save_single_page asset_id n image bucket d in
      let rest = save_jobs asset_id bucket jobs saved.1 in (one_if_saved saved.0 + rest.0, rest.1)

  unfoldable pub save_pages_directly_with_repo : GoString → List GoString → GoString → Db → ℕ × Db
  unfolding save_jobs page_jobs
  save_pages_directly_with_repo asset_id images bucket =
      save_jobs asset_id bucket (page_jobs 0 images)
