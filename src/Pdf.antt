-- ===== src/Pdf.antt =====
-- The tables of the PDF processor and the statements on them: the PDF operations of
-- internal/infrastructure/adapters/repository/lesson/lesson_repository.go and the entities of
-- internal/domain/entities/lessons/lessons.go. A statement that the database does not answer fails;
-- which ones do, the clock and the services are the record Services, asked with the number of
-- statements and requests made so far.
pub mod Pages
pub mod Process
pub mod Cleanup
pub mod Images
pub mod Keys
pub mod Rotation
mod KeyExamples
pub mod Saving
pub mod Covering
pub mod Outcome
pub mod Result
pub mod Stuck
pub mod Retired
mod Examples
use memberclass_backend_gola.Common.{
  ℕ, suc, String, Bool, true, false, not, ◌&&◌, ◌||◌, Option, none, some, List, [], ◌∷◌, ◌++◌, leb,
  ◌==◌, if◌then◌else◌, is_some, take, filter_by, sort_by, GoString, str, ◌===◌, is_empty,
}

pub data AssetStatus : Type 0 where
  pending processing done partial failed permanently_failed : AssetStatus

-- The columns that the PDF operations read.
pub record Lesson : Type 0 where
  pub id : GoString
  pub created_at : ℕ
  pub media_url : Option GoString

pub record LessonPdfAsset : Type 0 where
  pub id : GoString
  pub lesson_id : GoString
  pub source_pdf_url : GoString
  pub total_pages : Option ℕ
  pub status : AssetStatus
  pub error : Option GoString
  pub created_at : ℕ
  pub updated_at : ℕ

pub record LessonPdfPage : Type 0 where
  pub id : GoString
  pub asset_id : GoString
  pub page_number : ℕ
  pub image_url : GoString
  pub created_at : ℕ
  pub updated_at : ℕ

-- One database, by the bucket it is registered for, and the files that were uploaded while it was
-- served: each with its bucket, "" for the default one.
pub record Db : Type 0 where
  pub bucket : GoString
  pub lessons : List Lesson
  pub assets : List LessonPdfAsset
  pub pages : List LessonPdfPage
  pub uploads : List (GoString × GoString)
  pub calls : ℕ

-- A MemberClassError, or an error with a text only.
pub data Failure : Type 0 where
  member_class : ℕ → GoString → Failure
  plain : GoString → Failure

-- `missing` is ErrLessonNotFound, ErrPDFAssetNotFound or ErrPDFPageNotFound.
pub data Answer (A : Type 0) : Type 0 where
  value : A → Answer A
  missing : Answer A
  broken : Failure → Answer A

-- What the processor does not implement: the connection and its clock, uuid.New, base64, url.Parse
-- with Hostname, the storage, and the PDF service with the token and the task that it gives.
pub record Services : Type 1 where
  pub Token : Type 0
  pub Task : Type 0
  pub down : GoString → ℕ → Bool
  pub now : ℕ → ℕ
  pub uuid : ℕ → GoString
  pub decode_string : GoString → Answer GoString
  pub hostname : GoString → Option GoString
  pub upload : ℕ → GoString → GoString → Answer GoString
  pub upload_to_bucket : ℕ → GoString → GoString → GoString → Answer GoString
  pub get_token_and_create_task : ℕ → Answer (Token × Task)
  pub add_file : ℕ → Token → Task → GoString → Answer GoString
  pub process_task : ℕ → Token → Task → GoString → Answer (Unit {0})
  pub download_task : ℕ → Token → Task → Answer GoString
  pub extract_images : GoString → Answer (List GoString)

abbrev pub M : Type 0 → Type 0
M A = Db → Answer A × Db

abbrev pub map_answer : {A B : Type 0} → (A → B) → Answer A → Answer B
map_answer f (value a) = value (f a)
map_answer f missing = missing
map_answer f (broken e) = broken e

abbrev pub pure : {A : Type 0} → A → M A
pure a d = (value a, d)

infixl 5 ◌>>=◌
abbrev pub after_answer : {A B : Type 0} → Answer A × Db → (A → M B) → Answer B × Db
after_answer (value a, d) f = f a d
after_answer (missing, d) f = (missing, d)
after_answer (broken e, d) f = (broken e, d)

abbrev pub ◌>>=◌ : {A B : Type 0} → M A → (A → M B) → M B
◌>>=◌ m f d = after_answer (m d) f

abbrev pub found_or_missing : {A : Type 0} → Option A → Answer A
found_or_missing none = missing
found_or_missing (some a) = value a

abbrev pub called : Db → Db
called d = record d { calls = suc d.calls }

-- The first row that a query by lesson finds.
unfoldable pub find_lesson : GoString → List Lesson → Option Lesson
find_lesson id [] = none
find_lesson id (l ∷ ls) = if l.id === id then some l else find_lesson id ls

unfoldable pub find_asset : GoString → List LessonPdfAsset → Option LessonPdfAsset
find_asset lesson_id [] = none
find_asset lesson_id (a ∷ rest) =
    if a.lesson_id === lesson_id then some a else find_asset lesson_id rest

abbrev pub is_page : GoString → ℕ → LessonPdfPage → Bool
is_page asset_id n p = (p.asset_id === asset_id) && (p.page_number == n)

unfoldable pub find_page : GoString → ℕ → List LessonPdfPage → Option LessonPdfPage
find_page asset_id n [] = none
find_page asset_id n (p ∷ ps) = if is_page asset_id n p then some p else find_page asset_id n ps

-- strings.HasSuffix, and `LIKE '%…'` for a text with no wildcard in it.
unfoldable pub has_suffix : GoString → GoString → Bool
has_suffix suffix [] = is_empty suffix
has_suffix suffix (c ∷ cs) = (suffix === (c ∷ cs)) || has_suffix suffix cs

abbrev pub is_pdf : Option GoString → Bool
is_pdf none = false
is_pdf (some url) = has_suffix (str ".pdf") url

unfoldable pub is_waiting : List LessonPdfAsset → Lesson → Bool
unfolding find_asset has_suffix
is_waiting assets l = is_pdf l.media_url && not (is_some (find_asset l.id assets))

abbrev pub is_failed : AssetStatus → Bool
is_failed failed = true
is_failed partial = true
is_failed _ = false

-- UPDATE … SET … WHERE id = …
unfoldable pub set_asset :
    GoString → (LessonPdfAsset → LessonPdfAsset) → List LessonPdfAsset → List LessonPdfAsset
set_asset id f [] = []
set_asset id f (a ∷ rest) = (if a.id === id then f a else a) ∷ set_asset id f rest

abbrev pub with_status :
    AssetStatus → Option ℕ → Option GoString → ℕ → LessonPdfAsset → LessonPdfAsset
with_status status total error now a = record a {
  status = status;
  total_pages = total;
  error = error;
  updated_at = now;
}

-- The rows that an update writes, without those that identify the row.
abbrev pub rewritten : LessonPdfAsset → ℕ → LessonPdfAsset → LessonPdfAsset
rewritten new now a = record a {
  source_pdf_url = new.source_pdf_url;
  total_pages = new.total_pages;
  status = new.status;
  error = new.error;
  updated_at = now;
}

-- GetFailedPDFAssets has no LIMIT where the limit is 0.
abbrev pub limited {ℓ} : {A : Type ℓ} → ℕ → List A → List A
limited limit rows = if limit == 0 then rows else take limit rows

module _ (s : Services) where
  unfoldable pub is_down : Db → Bool
  is_down d = s.down d.bucket d.calls

  abbrev pub query : {A : Type 0} → String → (Db → Answer A) → M A
  query message read d =
      (if is_down d then broken (member_class 500 (str message)) else read d, called d)

  abbrev pub statement : String → (Db → Db) → M (Unit {0})
  statement message write d =
      if is_down d
      then (broken (member_class 500 (str message)), called d)
      else (value tt, called (write d))

  unfoldable pub get_by_id : GoString → M Lesson
  unfolding find_lesson is_down
  get_by_id id = query "error finding lesson" (λ d. found_or_missing (find_lesson id d.lessons))

  -- With the asset of the LEFT JOIN.
  unfoldable pub get_by_id_with_pdf_asset : GoString → M (Lesson × Option LessonPdfAsset)
  unfolding find_lesson find_asset is_down
  get_by_id_with_pdf_asset id = query "error finding lesson with PDF asset" (λ d.
      map_answer (λ l. (l, find_asset id d.assets)) (found_or_missing (find_lesson id d.lessons)))

  unfoldable pub get_pending_pdf_lessons : ℕ → M (List Lesson)
  unfolding is_waiting is_down
  get_pending_pdf_lessons limit = query "error getting pending PDF lessons" (λ d. value (
      take limit (
        sort_by (λ a b. leb a.created_at b.created_at)
          (filter_by (is_waiting d.assets) d.lessons))))

  unfoldable pub get_pdf_asset_by_lesson_id : GoString → M LessonPdfAsset
  unfolding find_asset is_down
  get_pdf_asset_by_lesson_id lesson_id =
      query "error finding PDF asset" (λ d. found_or_missing (find_asset lesson_id d.assets))

  -- A row goes to the end of its table; both of its times are now.
  unfoldable pub create_pdf_asset : LessonPdfAsset → M (Unit {0})
  unfolding is_down
  create_pdf_asset asset = statement "error creating PDF asset" (λ d. record d {
    assets =
        d.assets ++ record asset { created_at = s.now d.calls; updated_at = s.now d.calls } ∷ [];
  })

  unfoldable pub update_pdf_asset : LessonPdfAsset → M (Unit {0})
  unfolding set_asset is_down
  update_pdf_asset asset =
      statement "error updating PDF asset"
        (λ d. record d { assets = set_asset asset.id (rewritten asset (s.now d.calls)) d.assets })

  unfoldable pub update_pdf_asset_status :
      GoString → AssetStatus → Option ℕ → Option GoString → M (Unit {0})
  unfolding set_asset is_down
  update_pdf_asset_status asset_id status total error =
      statement "error updating PDF asset status" (λ d. record d {
        assets = set_asset asset_id (with_status status total error (s.now d.calls)) d.assets;
      })

  unfoldable pub get_failed_pdf_assets : ℕ → M (List LessonPdfAsset)
  unfolding is_down
  get_failed_pdf_assets limit = query "error getting failed PDF assets" (λ d. value (
      limited limit (
        sort_by (λ a b. leb a.updated_at b.updated_at)
          (filter_by (λ a. is_failed a.status) d.assets))))

  unfoldable pub create_pdf_page : LessonPdfPage → M (Unit {0})
  unfolding is_down
  create_pdf_page page = statement "error creating PDF page" (λ d. record d {
    pages = d.pages ++ record page { created_at = s.now d.calls; updated_at = s.now d.calls } ∷ [];
  })

  unfoldable pub get_pdf_page_by_asset_and_number : GoString → ℕ → M LessonPdfPage
  unfolding find_page is_down
  get_pdf_page_by_asset_and_number asset_id n =
      query "error finding PDF page" (λ d. found_or_missing (find_page asset_id n d.pages))

  unfoldable pub get_pdf_pages_by_asset_id : GoString → M (List LessonPdfPage)
  unfolding is_down
  get_pdf_pages_by_asset_id asset_id = query "error getting PDF pages" (λ d. value (
      sort_by (λ a b. leb a.page_number b.page_number)
        (filter_by (λ p. p.asset_id === asset_id) d.pages)))

  unfoldable pub delete_pdf_page : GoString → M (Unit {0})
  unfolding is_down
  delete_pdf_page page_id =
      statement "error deleting PDF page"
        (λ d. record d { pages = filter_by (λ p. not (p.id === page_id)) d.pages })

  unfoldable pub delete_pdf_pages_by_asset_id : GoString → M (Unit {0})
  unfolding is_down
  delete_pdf_pages_by_asset_id asset_id =
      statement "error deleting PDF pages by asset ID"
        (λ d. record d { pages = filter_by (λ p. not (p.asset_id === asset_id)) d.pages })
