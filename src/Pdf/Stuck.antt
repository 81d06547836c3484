-- ===== src/Pdf/Stuck.antt =====
-- Which lessons the two batches of pdf_processor_usecase.go come to: ProcessAllPendingLessons reads
-- GetPendingPDFLessons, RetryFailedAssets reads GetFailedPDFAssets.
use memberclass_backend_gola.Pdf.Process.{
  regenerate_with_repo, reset_asset, replaced, lesson_not_found, internal, regenerate_lesson,
  pdf_url,
}
use memberclass_backend_gola.Common.{
  All-sort_by, All-take, All-filter_by, All-implies, ◌++◌, All-append, Option, suc,
}
use memberclass_backend_gola.Common.{
  ℕ, ◌≡◌, refl, ap, ◌∙◌, inl, inr, Bool, true, false, not, ◌&&◌, none, some, List, [], ◌∷◌, ◌==◌,
  Bool-cases, is_some, All, All-take, All-filter_by, All-implies, All-sort_by, GoString, ◌===◌,
  text_eq_iff,
}
use memberclass_backend_gola.Pdf.{
  Lesson, LessonPdfAsset, Db, Services, find_asset, is_pdf, is_waiting, is_failed, set_asset,
  limited, is_down, get_pending_pdf_lessons, get_failed_pdf_assets, value, get_by_id_with_pdf_asset,
  delete_pdf_pages_by_asset_id, update_pdf_asset_status, Answer, after_answer, create_pdf_asset,
  called, broken, map_answer, found_or_missing, find_lesson, missing,
}
use memberclass_backend_gola.Pdf.Outcome.{
  updated_row, no_value, value_pair_eq, find_asset-append, set_own_row,
}

-- No two assets belong to one lesson.
unfoldable pub AssetsDiffer : List LessonPdfAsset → Type 0
AssetsDiffer [] = Unit {0}
AssetsDiffer (a ∷ rest) = (find_asset a.lesson_id rest ≡ none) × AssetsDiffer rest

abbrev NotFailed : GoString → LessonPdfAsset → Type 0
NotFailed lesson_id a = (a.lesson_id === lesson_id) ≡ true → is_failed a.status ≡ false

no_asset :
    (lesson_id : GoString) (assets : List LessonPdfAsset)
    → find_asset lesson_id assets ≡ none
    → All (NotFailed lesson_id) assets
unfolding find_asset
no_asset lesson_id [] h = tt
no_asset lesson_id (a ∷ rest) h = elim (Bool-cases (a.lesson_id === lesson_id)) [
  | inl here ↦ absurd (let e : some a ≡ none = rw here at h in cc)
  | inr other ↦ (λ here. absurd (cc (here, other)), no_asset lesson_id rest (rw other at h))
]

-- An update of the lesson's asset to a status that is not failed.
module _ (lesson_id id : GoString) (f : LessonPdfAsset → LessonPdfAsset)
    (same_lesson : (a : LessonPdfAsset) → (f a).lesson_id ≡ a.lesson_id)
    (not_failed : (a : LessonPdfAsset) → is_failed (f a).status ≡ false) where
  other_row :
      (a : LessonPdfAsset)
      → (a.lesson_id === lesson_id) ≡ false
      → NotFailed lesson_id (updated_row id f a)
  other_row a other = elim (Bool-cases (a.id === id)) [
    | inl same ↦ rw same (λ here. not_failed a)
    | inr differs ↦ rw differs (λ here. absurd (cc (here, other)))
  ]

  own_row : (a : LessonPdfAsset) → a.id ≡ id → NotFailed lesson_id (updated_row id f a)
  own_row a own = rw ((text_eq_iff a.id id).1 own) (λ here. not_failed a)

  set_asset-unchanged :
      (assets : List LessonPdfAsset)
      → find_asset lesson_id assets ≡ none
      → All (NotFailed lesson_id) (set_asset id f assets)
  unfolding find_asset set_asset
  set_asset-unchanged [] h = tt
  set_asset-unchanged (a ∷ rest) h = elim (Bool-cases (a.lesson_id === lesson_id)) [
    | inl here ↦ absurd (let e : some a ≡ none = rw here at h in cc)
    | inr other ↦ (other_row a other, set_asset-unchanged rest (rw other at h))
  ]

  set_asset-NotFailed :
      (assets : List LessonPdfAsset) (row : LessonPdfAsset)
      → AssetsDiffer assets
      → find_asset lesson_id assets ≡ some row
      → row.id ≡ id
      → All (NotFailed lesson_id) (set_asset id f assets)
  unfolding find_asset set_asset AssetsDiffer
  set_asset-NotFailed [] row differ found own = tt
  set_asset-NotFailed (a ∷ rest) row differ found own =
      elim (Bool-cases (a.lesson_id === lesson_id)) [
        | inl here ↦
            let is_row : some a ≡ some row = rw here at found in
            let same : a ≡ row = cc (is_row) in
            let absent : find_asset lesson_id rest ≡ none =
              rw ((text_eq_iff _ _).0 here) at (differ.0) in
            (
              own_row a (ap (λ (x : LessonPdfAsset). x.id) same ∙ own),
              set_asset-unchanged rest absent,
            )
        | inr other ↦
            (other_row a other, set_asset-NotFailed rest row differ.1 (rw other at found) own)
      ]

-- No batch comes to the lesson.
pub record IsStuck (s : Services) (lesson_id : GoString) (d : Db) : Type 0 where
  pub not_pending :
      (limit : ℕ) (ls : List Lesson) (e : Db)
      → get_pending_pdf_lessons s limit d ≡ (value ls, e)
      → All (λ l. (l.id === lesson_id) ≡ false) ls
  pub not_failed :
      (limit : ℕ) (assets : List LessonPdfAsset) (e : Db)
      → get_failed_pdf_assets s limit d ≡ (value assets, e)
      → All (λ a. (a.lesson_id === lesson_id) ≡ false) assets

not_second : (b c : Bool) → (b && not c) ≡ true → c ≡ false
not_second true false h = refl
not_second true true h = cc
not_second false c h = cc

waits_without_asset :
    (lesson_id : GoString) (assets : List LessonPdfAsset) (row : LessonPdfAsset)
    → find_asset lesson_id assets ≡ some row
    → (l : Lesson) → is_waiting assets l ≡ true
    → (l.id === lesson_id) ≡ false
unfolding is_waiting
waits_without_asset lesson_id assets row found l waits = elim (Bool-cases (l.id === lesson_id)) [
  | inl same ↦
      let has_one : find_asset l.id assets ≡ some row =
        ap (λ t. find_asset t assets) ((text_eq_iff _ _).0 same) ∙ found in
      let no_one : is_some (find_asset l.id assets) ≡ false =
        not_second (is_pdf l.media_url) _ waits in
      absurd (let e : is_some (some row) ≡ false = rw has_one at no_one in cc)
  | inr other ↦ other
]

pub limited-All :
    {A : Type 0} (P : A → Type 0) (limit : ℕ) (xs : List A) → All P xs → All P (limited limit xs)
limited-All P limit xs h = elim (Bool-cases (limit == 0)) [
  | inl none_given ↦ rw none_given h
  | inr given ↦ rw given (All-take P limit xs h)
]

everywhere : {A : Type 0} (xs : List A) → All (λ x. Unit {0}) xs
everywhere [] = tt
everywhere (x ∷ xs) = (tt, everywhere xs)

module _ (s : Services) (lesson_id : GoString) (d : Db) (row : LessonPdfAsset)
    (found : find_asset lesson_id d.assets ≡ some row)
    (healthy : All (NotFailed lesson_id) d.assets) where
  pub IsStuck-intro : IsStuck s lesson_id d
  unfolding get_pending_pdf_lessons get_failed_pdf_assets
  IsStuck-intro = record {
    not_pending = λ limit ls e h. elim (Bool-cases (is_down s d)) [
      | inl down ↦ absurd (no_value (rw down at h))
      | inr up ↦ rw (← (value_pair_eq (rw up at h)).0) (
          All-take _ limit _ (
            All-sort_by _ _ _ (
              All-implies _ _
                (λ l waits. waits_without_asset lesson_id d.assets row found l waits.1) _
                (All-filter_by (λ l. Unit {0}) (is_waiting d.assets) d.lessons
                  (everywhere d.lessons)))))
    ];
    not_failed = λ limit assets e h. elim (Bool-cases (is_down s d)) [
      | inl down ↦ absurd (no_value (rw down at h))
      | inr up ↦ rw (← (value_pair_eq (rw up at h)).0) (
          limited-All _ limit _ (
            All-sort_by _ _ _ (
              All-implies _ _ (λ a is. sound a is.0 is.1) _
                (All-filter_by (NotFailed lesson_id) (λ a. is_failed a.status) d.assets healthy))))
    ];
  }
    where
      sound :
          (a : LessonPdfAsset)
          → NotFailed lesson_id a
          → is_failed a.status ≡ true
          → (a.lesson_id === lesson_id) ≡ false
      sound a healthy_a failed_a = elim (Bool-cases (a.lesson_id === lesson_id)) [
        | inl here ↦ absurd (cc (healthy_a here, failed_a))
        | inr other ↦ other
      ]

NotFailed-append :
    (lesson_id : GoString) (assets : List LessonPdfAsset) (a : LessonPdfAsset)
    → find_asset lesson_id assets ≡ none
    → is_failed a.status ≡ false
    → All (NotFailed lesson_id) (assets ++ a ∷ [])
NotFailed-append lesson_id assets a absent healthy =
    All-append (NotFailed lesson_id) assets (a ∷ []) (no_asset lesson_id assets absent)
      ((λ here. healthy), tt)

module _ (s t : Services) (lesson_id : GoString) where
  reset_asset-IsStuck :
      (url : GoString) (found : Option LessonPdfAsset) (d e : Db)
      → ((n : ℕ) → s.down d.bucket n ≡ false)
      → AssetsDiffer d.assets
      → find_asset lesson_id d.assets ≡ found
      → reset_asset s lesson_id url found d ≡ (value tt, e)
      → IsStuck t lesson_id e
  unfolding reset_asset delete_pdf_pages_by_asset_id update_pdf_asset_status create_pdf_asset
      is_down
  reset_asset-IsStuck url none d e up differ absent h =
      let made = rw (up d.calls) at h in
      let same = value_pair_eq made in
      rw (← same.1) (
        IsStuck-intro t lesson_id _ _ (find_asset-append lesson_id d.assets _ absent refl)
          (NotFailed-append lesson_id d.assets _ absent refl))
  reset_asset-IsStuck url (some row) d e up differ present h =
      let made = rw (up d.calls, up (suc d.calls)) at h in
      let same = value_pair_eq made in
      rw (← same.1) (
        IsStuck-intro t lesson_id _ _
          (set_own_row row.id lesson_id _ (λ a. refl) d.assets row present refl)
          (set_asset-NotFailed lesson_id row.id _ (λ a. refl) (λ a. refl) d.assets row differ
            present refl))

  -- After a regeneration that succeeds on a database that answers and has one asset for a lesson at
  -- most, neither batch comes to the lesson, with any limit: its asset is pending, and the one query
  -- asks for lessons without an asset, the other for assets that failed.
  pub regenerate_with_repo-IsStuck :
      (d e : Db)
      → ((n : ℕ) → s.down d.bucket n ≡ false)
      → AssetsDiffer d.assets
      → regenerate_with_repo s lesson_id d ≡ (value tt, e)
      → IsStuck t lesson_id e
  unfolding regenerate_with_repo get_by_id_with_pdf_asset is_down
  regenerate_with_repo-IsStuck d e up differ h =
      after_lesson (find_lesson lesson_id d.lessons) (rw (up d.calls) at h)
    where
      after_url :
          (url : Answer GoString)
          → after_answer
              (url, called d)
              (λ url. reset_asset s lesson_id url (find_asset lesson_id d.assets))
            ≡ (value tt, e)
          → IsStuck t lesson_id e
      after_url (value url) reset = reset_asset-IsStuck url _ (called d) e up differ refl reset
      after_url missing reset =
          absurd (let same : missing ≡ value tt = ap (λ r. r.0) reset in cc (same))
      after_url (broken f) reset = absurd (no_value reset)

      after_lesson :
          (found : Option Lesson)
          → after_answer
              (
                replaced lesson_not_found (internal "error getting lesson") (
                    map_answer
                      (λ (l : Lesson). (l, find_asset lesson_id d.assets))
                      (found_or_missing found)),
                called d,
              )
              (regenerate_lesson s lesson_id)
            ≡ (value tt, e)
          → IsStuck t lesson_id e
      after_lesson none regenerated = absurd (no_value regenerated)
      after_lesson (some l) regenerated =
          after_url (pdf_url l.media_url) (unfold regenerate_lesson in regenerated)
