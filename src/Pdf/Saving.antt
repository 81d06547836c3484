-- ===== src/Pdf/Saving.antt =====
-- What saving one page does to the tables of pdf_processor_usecase.go, whatever fails on the way.
use memberclass_backend_gola.Common.{
  ℕ, ◌≡◌, refl, ◌↔◌, ◌⊎◌, inl, inr, true, false, none, [], ◌∷◌, ◌++◌, Bool-cases, is_some, ==_iff,
  GoString, ◌===◌, text_eq_refl, text_eq_iff, Option, some,
}
use memberclass_backend_gola.Pdf.{
  LessonPdfPage, Db, Failure, Answer, Services, after_answer, called, is_page, find_page, is_down,
  create_pdf_page, get_pdf_page_by_asset_and_number, value, missing, broken, found_or_missing,
}
use memberclass_backend_gola.Pdf.Pages.{
  wrap, answered, upload_image, insert_page, save_missing_page, save_single_page, base64_data,
  optional,
}

pub Answer-cases :
    {A : Type 0} (x : Answer A)
    → ((a : A) × (x ≡ value a)) ⊎ (x ≡ missing) ⊎ ((e : Failure) × (x ≡ broken e))
Answer-cases (value a) = inl (a, refl)
Answer-cases missing = inr (inl refl)
Answer-cases (broken e) = inr (inr (e, refl))

abbrev pub SameTables : Db → Db → Type 0
SameTables d e = (e.assets ≡ d.assets) × (e.lessons ≡ d.lessons)

-- A page was added, or none, and no other table was touched; a page is never added where there is
-- one.
abbrev pub PageOutcome : GoString → ℕ → Db → Answer (Unit {0}) × Db → Type 0
PageOutcome asset_id n before (answer, d) =
    SameTables before d
    × (((d.pages ≡ before.pages)
          × (answer ≡ value tt → is_some (find_page asset_id n before.pages) ≡ true))
        ⊎ ((page : LessonPdfPage) × (d.pages ≡ before.pages ++ page ∷ [])
            × (is_page asset_id n page ≡ true)
            × (find_page asset_id n before.pages ≡ none)))

pub is_page_iff :
    (asset_id : GoString) (n : ℕ) (p : LessonPdfPage)
    → (is_page asset_id n p ≡ true) ↔ ((p.asset_id ≡ asset_id) × (p.page_number ≡ n))
is_page_iff asset_id n p = (
  λ h. elim (Bool-cases (p.asset_id === asset_id)) [
    | inl same ↦ ((text_eq_iff _ _).0 same, (==_iff _ _).0 (rw same at h))
    | inr other ↦ absurd (let no_page : false ≡ true = rw other at h in cc)
  ],
  λ h. rw (h.0, h.1, text_eq_refl asset_id) ((==_iff n n).1 refl),
)

module _ (s : Services) (asset_id : GoString) (n : ℕ) where
  insert_page_lem :
      (url : GoString) (d : Db)
      → find_page asset_id n d.pages ≡ none
      → PageOutcome asset_id n d
          (answered (wrap "failed to save page to database: ") (insert_page s asset_id n url) d)
  unfolding insert_page create_pdf_page
  insert_page_lem url d absent = elim (Bool-cases (is_down s d)) [
    | inl down ↦ rw down (((refl, refl), inl (refl, λ e. cc)))
    | inr up ↦ rw up (
        let page : LessonPdfPage = record {
          id = s.uuid d.calls;
          asset_id = asset_id;
          page_number = n;
          image_url = url;
          created_at = s.now d.calls;
          updated_at = s.now d.calls;
        } in
        ((refl, refl), inr (page, refl, (is_page_iff asset_id n page).1 (refl, refl), absent)))
  ]

  store_page_lem :
      (d : Db)
      → find_page asset_id n d.pages ≡ none
      → (uploaded : Answer GoString)
      → PageOutcome asset_id n d (
          after_answer
            (wrap "failed to upload image to storage: " uploaded, d)
            (λ url.
              answered (wrap "failed to save page to database: ") (insert_page s asset_id n url)))
  store_page_lem d absent (value url) = insert_page_lem url d absent
  store_page_lem d absent missing = ((refl, refl), inl (refl, λ h. cc))
  store_page_lem d absent (broken f) = ((refl, refl), inl (refl, λ h. cc))

  save_missing_page_lem :
      (image bucket : GoString) (d : Db)
      → find_page asset_id n d.pages ≡ none
      → PageOutcome asset_id n d (save_missing_page s asset_id n image bucket none d)
  unfolding save_missing_page upload_image
  save_missing_page_lem image bucket d absent =
      elim (Answer-cases (s.decode_string (base64_data image))) [
        | inl (bytes, e) ↦ rw e (store_page_lem _ absent _)
        | inr (inl e) ↦ rw e (((refl, refl), inl (refl, λ h. cc)))
        | inr (inr (f, e)) ↦ rw e (((refl, refl), inl (refl, λ h. cc)))
      ]

  after_lookup :
      (image bucket : GoString) (d : Db) (found : Option LessonPdfPage)
      → find_page asset_id n d.pages ≡ found
      → PageOutcome asset_id n d (
          after_answer
            (optional (found_or_missing found), d)
            (λ existing. save_missing_page s asset_id n image bucket existing))
  unfolding save_missing_page
  after_lookup image bucket d none absent = save_missing_page_lem image bucket d absent
  after_lookup image bucket d (some p) present = ((refl, refl), inl (refl, λ h. rw present refl))

  pub save_single_page_lem :
      (image bucket : GoString) (d : Db)
      → PageOutcome asset_id n d (save_single_page s asset_id n image bucket d)
  unfolding save_single_page get_pdf_page_by_asset_and_number
  save_single_page_lem image bucket d = elim (Bool-cases (is_down s d)) [
    | inl down ↦ rw down (((refl, refl), inl (refl, λ e. cc)))
    | inr up ↦ rw up (after_lookup image bucket (called d) _ refl)
  ]
