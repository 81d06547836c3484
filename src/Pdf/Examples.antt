-- ===== src/Pdf/Examples.antt =====
-- Runs of the PDF processor.
use memberclass_backend_gola.Common.{
  ℕ, ◌+◌, ◌≡◌, refl, true, false, none, some, List, [], ◌∷◌, ◌++◌, length, GoString, str, ◌===◌,
}
use memberclass_backend_gola.Pdf.{
  Lesson, LessonPdfAsset, Db, Failure, Answer, Services, find_asset, processing, failed, plain,
  value, broken, has_suffix,
}
use memberclass_backend_gola.Pdf.Pages.{PageJob, save_jobs, save_single_page}
use memberclass_backend_gola.Pdf.Covering.{PagesDiffer, save_jobs-PagesDiffer, save_jobs_twice}
use memberclass_backend_gola.Pdf.Process.{
  ProcessResult, process_lesson, process_lesson_with_repo, regenerate_with_repo, prepare_asset,
  convert_pdf_to_images, internal,
}
use memberclass_backend_gola.Pdf.Result.{AnyDb, IsRecorded, process_lesson-records}
use memberclass_backend_gola.Pdf.Stuck.{AssetsDiffer, IsStuck, regenerate_with_repo-IsStuck}
use memberclass_backend_gola.Pdf.Retired.{process_lesson_with_repo-failed}

abbrev url_of_storage : GoString → GoString
url_of_storage filename = str "https://cdn/" ++ filename

-- Services that all answer; a document has two pages.
abbrev working : Services
working = record {
  Token = ℕ;
  Task = ℕ;
  down = λ b n. false;
  now = λ n. n;
  uuid = λ n. n ∷ [];
  decode_string = λ t. value t;
  hostname = λ t. some (str "storage.memberclass.com");
  upload = λ n bytes filename. value (url_of_storage filename);
  upload_to_bucket = λ n b bytes filename. value (url_of_storage filename);
  get_token_and_create_task = λ n. value (0, 0);
  add_file = λ n t k u. value (str "f");
  process_task = λ n t k f. value tt;
  download_task = λ n t k. value (str "zip");
  extract_images = λ z. value (str "one" ∷ str "two" ∷ []);
}

-- The same, with a PDF service that takes no file.
abbrev refusing : Services
refusing = record working { add_file = λ n t k u. broken (plain (str "404 Not Found")) }

abbrev lesson_one : Lesson
lesson_one = record { id = str "l1"; created_at = 0; media_url = some (str "http://x/a.pdf") }

abbrev fresh : Db
fresh = record {
  bucket = str "memberclass";
  lessons = lesson_one ∷ [];
  assets = [];
  pages = [];
  uploads = [];
  calls = 0;
}

abbrev damaged : LessonPdfAsset
damaged = record {
  id = str "a1";
  lesson_id = str "l1";
  source_pdf_url = str "http://x/a.pdf";
  total_pages = none;
  status = failed;
  error = some (str "Damaged file");
  created_at = 0;
  updated_at = 0;
}

abbrev with_asset : Db
with_asset = record fresh { assets = damaged ∷ [] }

abbrev two_jobs : List PageJob
two_jobs = (2, str "two") ∷ (1, str "one") ∷ []

no_pages : PagesDiffer fresh.pages
unfolding PagesDiffer
no_pages = tt

one_asset : AssetsDiffer with_asset.assets
unfolding AssetsDiffer find_asset
one_asset = (refl, tt)

save_jobs-PagesDiffer_example : PagesDiffer (save_jobs working (str "a1") [] two_jobs fresh).1.pages
save_jobs-PagesDiffer_example = save_jobs-PagesDiffer working (str "a1") [] two_jobs fresh no_pages

abbrev saved_once : Db
saved_once = (save_jobs working (str "a1") [] two_jobs fresh).1

both_saved : (save_jobs working (str "a1") [] two_jobs fresh).0 ≡ length two_jobs
unfolding save_jobs save_single_page ◌===◌
both_saved = refl

save_jobs_twice_example :
    (save_jobs working (str "a1") [] two_jobs saved_once).1
    ≡ record saved_once { calls = length two_jobs + saved_once.calls }
save_jobs_twice_example = save_jobs_twice working (str "a1") [] two_jobs fresh both_saved

abbrev all_done : ProcessResult
all_done = record { success = true; total_pages = 2; processed_pages = 2; error = [] }

abbrev after_run : List Db
after_run = (process_lesson working (str "l1") (fresh ∷ [])).1

processes : process_lesson working (str "l1") (fresh ∷ []) ≡ (value all_done, after_run)
unfolding process_lesson has_suffix save_single_page
processes = refl

process_lesson-records_example : AnyDb (IsRecorded (str "l1") all_done) after_run
process_lesson-records_example =
    process_lesson-records working (str "l1") (fresh ∷ []) after_run all_done processes

regenerates :
    regenerate_with_repo working (str "l1") with_asset
    ≡ (value tt, (regenerate_with_repo working (str "l1") with_asset).1)
unfolding regenerate_with_repo ◌===◌ has_suffix
regenerates = refl

regenerate_with_repo-IsStuck_example :
    IsStuck working (str "l1") (regenerate_with_repo working (str "l1") with_asset).1
regenerate_with_repo-IsStuck_example =
    regenerate_with_repo-IsStuck working working (str "l1") with_asset
      (regenerate_with_repo working (str "l1") with_asset).1 (λ n. refl) one_asset regenerates

abbrev prepared_run : Answer (LessonPdfAsset × GoString) × Db
prepared_run = prepare_asset refusing (str "l1") fresh

abbrev new_asset : LessonPdfAsset
new_asset = record {
  id = 2 ∷ [];
  lesson_id = str "l1";
  source_pdf_url = str "http://x/a.pdf";
  total_pages = none;
  status = processing;
  error = none;
  created_at = 2;
  updated_at = 2;
}

prepares :
    prepare_asset refusing (str "l1") fresh
    ≡ (value (new_asset, str "http://x/a.pdf"), prepared_run.1)
unfolding prepare_asset ◌===◌ has_suffix
prepares = refl

abbrev refused : Failure
refused = plain (str "failed to add file: 404 Not Found")

refuses :
    convert_pdf_to_images refusing (str "http://x/a.pdf") prepared_run.1
    ≡ (broken refused, (convert_pdf_to_images refusing (str "http://x/a.pdf") prepared_run.1).1)
unfolding convert_pdf_to_images
refuses = refl

process_lesson_with_repo-failed_example :
    let r = process_lesson_with_repo refusing (str "l1") fresh in
    (r.0 ≡ broken (internal "error converting PDF to images"))
    × (row : LessonPdfAsset) × (find_asset (str "l1") r.1.assets ≡ some row)
    × (row.status ≡ failed)
    × (row.error ≡ some (str "failed to add file: 404 Not Found"))
process_lesson_with_repo-failed_example =
    process_lesson_with_repo-failed refusing (str "l1") (str "http://x/a.pdf") new_asset fresh
      prepared_run.1 (convert_pdf_to_images refusing (str "http://x/a.pdf") prepared_run.1).1
      refused prepares refuses refl
