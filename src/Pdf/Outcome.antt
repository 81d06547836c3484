-- ===== src/Pdf/Outcome.antt =====
-- What ProcessLesson leaves behind in the database of a lesson: the state of its asset and its pages.
use memberclass_backend_gola.Pdf.Saving.{SameTables}
use memberclass_backend_gola.Pdf.Process.{
  replaced, create_or_update_with, create_or_update_pdf_asset, prepare_asset, prepare_with_url,
  prepare_with_lesson, internal, convert_pdf_to_images, service,
}
use memberclass_backend_gola.Common.{
  ℕ, suc, ◌+◌, ◌≤◌, ◌<◌, ◌≡◌, refl, ap, inl, inr, true, Option, none, some, List, [], ◌∷◌, ◌++◌,
  arith, ◌==◌, if◌then◌else◌, Bool-cases, is_some, ==_iff, length, All, GoString, ◌===◌,
  text_eq_refl, ◌∙◌, Bool, text_eq_iff, String,
}
use memberclass_backend_gola.Pdf.{
  LessonPdfAsset, LessonPdfPage, Db, Answer, M, after_answer, find_asset, find_page, set_asset,
  value, missing, broken, Failure, Services, create_pdf_asset, update_pdf_asset, is_down,
  get_pdf_asset_by_lesson_id, found_or_missing, called, pure,
}
use memberclass_backend_gola.Pdf.Pages.{page_jobs, optional, wrap}
use memberclass_backend_gola.Pdf.Covering.{Covered}

pub after_answer-eq-value :
    {A B : Type 0} (r : Answer A × Db) (f : A → M B) {b : B} {e : Db}
    → after_answer r f ≡ (value b, e)
    → (a : A) × (r.0 ≡ value a) × (f a r.1 ≡ (value b, e))
after_answer-eq-value (value a, d) f h = (a, refl, h)
after_answer-eq-value (missing, d) f h = cc
after_answer-eq-value (broken g, d) f h = cc

-- The row that an update writes where its id fits.
abbrev pub updated_row :
    GoString → (LessonPdfAsset → LessonPdfAsset) → LessonPdfAsset → LessonPdfAsset
updated_row id f a = if a.id === id then f a else a

abbrev pub map_option : {A : Type 0} → (A → A) → Option A → Option A
map_option f none = none
map_option f (some a) = some (f a)

module _ (id : GoString) (f : LessonPdfAsset → LessonPdfAsset)
    (same_lesson : (a : LessonPdfAsset) → (f a).lesson_id ≡ a.lesson_id) where
  updated_row-lesson_id : (a : LessonPdfAsset) → (updated_row id f a).lesson_id ≡ a.lesson_id
  updated_row-lesson_id a = elim (Bool-cases (a.id === id)) [
    | inl same ↦ rw same (same_lesson a)
    | inr other ↦ rw other refl
  ]

  -- An update by id finds the same row for a lesson.
  pub find_asset-set_asset :
      (lesson_id : GoString) (assets : List LessonPdfAsset)
      → find_asset lesson_id (set_asset id f assets)
        ≡ map_option (updated_row id f) (find_asset lesson_id assets)
  unfolding find_asset set_asset
  find_asset-set_asset lesson_id [] = refl
  find_asset-set_asset lesson_id (a ∷ rest) =
      rw (updated_row-lesson_id a) elim (Bool-cases (a.lesson_id === lesson_id)) [
        | inl here ↦ rw here refl
        | inr other ↦ rw other (find_asset-set_asset lesson_id rest)
      ]

pub set_own_row :
    (id lesson_id : GoString) (f : LessonPdfAsset → LessonPdfAsset)
    → ((a : LessonPdfAsset) → (f a).lesson_id ≡ a.lesson_id)
    → (assets : List LessonPdfAsset) (row : LessonPdfAsset) → find_asset lesson_id assets ≡ some row
    → row.id ≡ id
    → find_asset lesson_id (set_asset id f assets) ≡ some (f row)
set_own_row id lesson_id f same_lesson assets row present own =
    let here : (row.id === id) ≡ true = (text_eq_iff row.id id).1 own in
    find_asset-set_asset id f same_lesson lesson_id assets
    ∙ ap (map_option (updated_row id f)) present
    ∙ ap some (if_true (row.id === id) here)
  where
    if_true : (b : Bool) → b ≡ true → (if b then f row else row) ≡ f row
    if_true b h = rw h refl

pub find_asset-append :
    (lesson_id : GoString) (assets : List LessonPdfAsset) (a : LessonPdfAsset)
    → find_asset lesson_id assets ≡ none
    → a.lesson_id ≡ lesson_id
    → find_asset lesson_id (assets ++ a ∷ []) ≡ some a
unfolding find_asset
find_asset-append lesson_id [] a absent same = rw (same, text_eq_refl lesson_id) refl
find_asset-append lesson_id (b ∷ rest) a absent same =
    elim (Bool-cases (b.lesson_id === lesson_id)) [
      | inl here ↦ absurd (let e : some b ≡ none = rw here at absent in cc)
      | inr other ↦ rw other (find_asset-append lesson_id rest a (rw other at absent) same)
    ]

pub page_jobs-length :
    (i : ℕ) (images : List GoString) → length (page_jobs i images) ≡ length images
unfolding page_jobs
page_jobs-length i [] = refl
page_jobs-length i (image ∷ images) = ap suc (page_jobs-length (suc i) images)

pub page_jobs-Covered :
    (asset_id : GoString) (ps : List LessonPdfPage) (i : ℕ) (images : List GoString)
    → All (Covered asset_id ps) (page_jobs i images)
    → (n : ℕ) → i < n
    → n ≤ i + length images
    → is_some (find_page asset_id n ps) ≡ true
unfolding page_jobs
page_jobs-Covered asset_id ps i [] h n low high = absurd (omega arith)
page_jobs-Covered asset_id ps i (image ∷ images) h n low high = elim (Bool-cases (n == suc i)) [
  | inl here ↦ rw ((==_iff n (suc i)).0 here) h.0
  | inr later ↦ page_jobs-Covered asset_id ps (suc i) images h.1 n (ground arith) (omega arith)
]

pub replaced-eq-value :
    {A : Type 0} (f g : Failure) (x : Answer A) {a : A} → replaced f g x ≡ value a → x ≡ value a
replaced-eq-value f g (value b) h = h
replaced-eq-value f g missing h = cc
replaced-eq-value f g (broken e) h = cc

-- The first row for the lesson is the asset with this id.
abbrev pub HasRow : GoString → GoString → Db → Type 0
HasRow lesson_id id d =
    (row : LessonPdfAsset) × (find_asset lesson_id d.assets ≡ some row) × (row.id ≡ id)

pub value_pair_eq :
    {A : Type 0} {a b : A} {d e : Db}
    → ◌≡◌ {A = Answer A × Db} (value a, d) (value b, e)
    → (a ≡ b) × (d ≡ e)
value_pair_eq {A} {a} {b} h =
    let same : value a ≡ value b = ap (λ r. r.0) h in (cc (same), ap (λ r. r.1) h)

pub no_value :
    {A : Type 0} {f : Failure} {a : A} {d e : Db}
    → ◌≡◌ {A = Answer A × Db} (broken f, d) (value a, e)
    → ⊥
no_value {A} {f} {a} h = let same : broken f ≡ value a = ap (λ r. r.0) h in cc (same)

module _ (s : Services) (lesson_id : GoString) where
  create_or_update_with-HasRow :
      (url : GoString) (found : Option LessonPdfAsset) (d e : Db) (asset : LessonPdfAsset)
      → find_asset lesson_id d.assets ≡ found
      → create_or_update_with s lesson_id url found d ≡ (value asset, e)
      → HasRow lesson_id asset.id e
  unfolding create_or_update_with create_pdf_asset update_pdf_asset
  create_or_update_with-HasRow url none d e asset absent h = elim (Bool-cases (is_down s d)) [
    | inl down ↦ absurd (no_value (rw down at h))
    | inr up ↦
        let same = value_pair_eq (rw up at h) in
        rw (← same.0, ← same.1) (_, find_asset-append lesson_id d.assets _ absent refl, refl)
  ]
  create_or_update_with-HasRow url (some row) d e asset present h =
      elim (Bool-cases (is_down s d)) [
        | inl down ↦ absurd (no_value (rw down at h))
        | inr up ↦
            let same = value_pair_eq (rw up at h) in
            rw (← same.0, ← same.1)
              (_, set_own_row row.id lesson_id _ (λ a. refl) d.assets row present refl, refl)
      ]

  create_or_update_pdf_asset-HasRow :
      (url : GoString) (d e : Db) (asset : LessonPdfAsset)
      → create_or_update_pdf_asset s lesson_id url d ≡ (value asset, e)
      → HasRow lesson_id asset.id e
  unfolding create_or_update_pdf_asset get_pdf_asset_by_lesson_id
  create_or_update_pdf_asset-HasRow url d e asset h = elim (Bool-cases (is_down s d)) [
    | inl down ↦ absurd (no_value (rw down at h))
    | inr up ↦ after_lookup _ refl (rw up at h)
  ]
    where
      after_lookup :
          (found : Option LessonPdfAsset)
          → find_asset lesson_id d.assets ≡ found
          → after_answer
              (optional (found_or_missing found), called d)
              (create_or_update_with s lesson_id url)
            ≡ (value asset, e)
          → HasRow lesson_id asset.id e
      after_lookup none absent made =
          create_or_update_with-HasRow url none (called d) e asset absent made
      after_lookup (some row) present made =
          create_or_update_with-HasRow url (some row) (called d) e asset present made

  prepare_with_url-HasRow :
      (pdf : GoString) (d e : Db) (asset : LessonPdfAsset) (url : GoString)
      → prepare_with_url s lesson_id pdf d ≡ (value (asset, url), e)
      → HasRow lesson_id asset.id e
  unfolding prepare_with_url
  prepare_with_url-HasRow pdf d e asset url h =
      let failure = internal "error creating PDF asset" in
      let answer = create_or_update_pdf_asset s lesson_id pdf d in
      let (made, was_made, last) =
        after_answer-eq-value (replaced failure failure answer.0, answer.1) (λ a. pure (a, pdf))
          h in
      let same = value_pair_eq last in
      let got = replaced-eq-value failure failure answer.0 was_made in
      let here = create_or_update_pdf_asset-HasRow pdf d answer.1 made (λ i. (got i, answer.1)) in
      rw (← same.1, ← ap (λ (p : LessonPdfAsset × GoString). p.0.id) same.0) here

  pub prepare_asset-HasRow :
      (d e : Db) (asset : LessonPdfAsset) (url : GoString)
      → prepare_asset s lesson_id d ≡ (value (asset, url), e)
      → HasRow lesson_id asset.id e
  unfolding prepare_asset prepare_with_lesson
  prepare_asset-HasRow d e asset url h =
      let (lesson, read, checked) = after_answer-eq-value _ (prepare_with_lesson s lesson_id) h in
      let (pdf, is_pdf, prepared) =
        after_answer-eq-value _ (prepare_with_url s lesson_id) checked in
      prepare_with_url-HasRow pdf _ e asset url prepared

-- The tables are what they were.
unfoldable pub LeavesTables : {A : Type 0} → Db → Answer A × Db → Type 0
LeavesTables d r = SameTables d r.1 × (r.1.pages ≡ d.pages)

after_answer-LeavesTables :
    {A B : Type 0} (d : Db) (r : Answer A × Db) (f : A → M B)
    → LeavesTables d r
    → ((a : A) (e : Db) → LeavesTables e (f a e))
    → LeavesTables d (after_answer r f)
unfolding LeavesTables
after_answer-LeavesTables d (value a, e) f same leaves =
    let next = leaves a e in ((next.0.0 ∙ same.0.0, next.0.1 ∙ same.0.1), next.1 ∙ same.1)
after_answer-LeavesTables d (missing, e) f same leaves = same
after_answer-LeavesTables d (broken g, e) f same leaves = same

module _ (s : Services) where
  service-LeavesTables :
      {A : Type 0} (text : String) (request : ℕ → Answer A) (d : Db)
      → LeavesTables d (service s text request d)
  unfolding LeavesTables
  service-LeavesTables text request d = ((refl, refl), refl)

  pub convert_pdf_to_images-LeavesTables :
      (url : GoString) (d : Db) → LeavesTables d (convert_pdf_to_images s url d)
  unfolding convert_pdf_to_images
  convert_pdf_to_images-LeavesTables url d =
      after_answer-LeavesTables d _ _
        (service-LeavesTables "failed to get token and create task: " s.get_token_and_create_task d)
        (λ granted e.
          after_answer-LeavesTables e _ _
            (service-LeavesTables "failed to add file: " (λ n. s.add_file n granted.0 granted.1 url)
              e)
            (λ filename f.
              after_answer-LeavesTables f _ _
                (service-LeavesTables "failed to process task: "
                  (λ n. s.process_task n granted.0 granted.1 filename) f)
                (λ ready g.
                  after_answer-LeavesTables g _ _
                    (service-LeavesTables "failed to download task: "
                      (λ n. s.download_task n granted.0 granted.1) g)
                    (λ zip h. extracted zip h))))
    where
      extracted :
          (zip : GoString) (h : Db)
          → LeavesTables h (wrap "failed to extract images: " (s.extract_images zip), h)
      extracted zip h =
          let same : SameTables h h × (h.pages ≡ h.pages) = ((refl, refl), refl) in
          unfold LeavesTables in same
