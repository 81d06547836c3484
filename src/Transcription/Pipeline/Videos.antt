-- ===== src/Transcription/Pipeline/Videos.antt =====
-- The row of videos that a run publishes for: sqlUpsertVideo, keyed on the tenant and the URL.
use memberclass_backend_gola.Common.{
  ◌≡◌, refl, ap, ◌∙◌, inl, inr, true, false, ◌&&◌, Option, none, some, List, [], ◌∷◌, ◌++◌,
  if◌then◌else◌, Bool-cases, GoString, ◌===◌, text_eq_refl,
}
use memberclass_backend_gola.Transcription.Pipeline.{Video, find_video, update_video, upserted}

module _ {Time : Type 0} where
  -- The row that was there before keeps its id.
  abbrev pub IsKept : Option (Video Time) → GoString → Type 0
  IsKept none id = Unit
  IsKept (some old) id = old.id ≡ id

  -- The id stands for the row of this tenant and URL, and for the one before, if there was one.
  abbrev pub IsVideoOf :
      GoString → GoString → List (Video Time) → GoString → List (Video Time) → Type 0
  IsVideoOf tenant_id url before id after =
      IsKept (find_video tenant_id url before) id
      × (v : Video Time) × (find_video tenant_id url after ≡ some v)
      × (v.id ≡ id)

  abbrev pub KeepsKey : (Video Time → Video Time) → Type 0
  KeepsKey f =
      (x : Video Time)
      → ((f x).id ≡ x.id) × ((f x).tenant_id ≡ x.tenant_id) × ((f x).source_url ≡ x.source_url)

  found_cons :
      (tenant_id url : GoString) (x : Video Time) (xs : List (Video Time))
      → ((x.tenant_id === tenant_id) && (x.source_url === url)) ≡ true
      → find_video tenant_id url (x ∷ xs) ≡ some x
  found_cons tenant_id url x xs matches = rw matches refl

  passed_cons :
      (tenant_id url : GoString) (x : Video Time) (xs : List (Video Time))
      → ((x.tenant_id === tenant_id) && (x.source_url === url)) ≡ false
      → find_video tenant_id url (x ∷ xs) ≡ find_video tenant_id url xs
  passed_cons tenant_id url x xs differs = rw differs refl

  changed_one : (GoString) → (Video Time → Video Time) → Video Time → Video Time
  changed_one id f x = if x.id === id then f x else x

  changed_one-KeepsKey :
      (id : GoString) (f : Video Time → Video Time) → KeepsKey f → KeepsKey (changed_one id f)
  unfolding changed_one
  changed_one-KeepsKey id f keeps x = elim (Bool-cases (x.id === id)) [
    | inl same ↦ rw same (keeps x)
    | inr other ↦ rw other (refl, refl, refl)
  ]

  pub find_video-update_video :
      (tenant_id url id : GoString) (f : Video Time → Video Time)
      → KeepsKey f
      → (vs : List (Video Time)) (v : Video Time) → find_video tenant_id url vs ≡ some v
      → (u : Video Time) × (find_video tenant_id url (update_video id f vs) ≡ some u)
        × (u.id ≡ v.id)
  unfolding changed_one
  find_video-update_video tenant_id url id f keeps [] v found = cc found
  find_video-update_video tenant_id url id f keeps (x ∷ xs) v found =
      let (same_id, same_tenant, same_url) = changed_one-KeepsKey id f keeps x in
      let y = changed_one id f x in
      let test : ((y.tenant_id === tenant_id) && (y.source_url === url))
          ≡ ((x.tenant_id === tenant_id) && (x.source_url === url)) =
        ap (λ t. (t === tenant_id) && (y.source_url === url)) same_tenant
        ∙ ap (λ t. (x.tenant_id === tenant_id) && (t === url)) same_url in
      elim (Bool-cases ((x.tenant_id === tenant_id) && (x.source_url === url))) [
        | inl matches ↦
            let it : some x ≡ some v = rw matches at found in
            let is_v : x ≡ v = cc it in
            (
              y,
              found_cons tenant_id url y (update_video id f xs) (test ∙ matches),
              same_id ∙ ap (λ w. w.id) is_v,
            )
        | inr differs ↦
            let later : find_video tenant_id url xs ≡ some v = rw differs at found in
            let (u, is_u, kept) = find_video-update_video tenant_id url id f keeps xs v later in
            (u, passed_cons tenant_id url y (update_video id f xs) (test ∙ differs) ∙ is_u, kept)
      ]

  find_video-append :
      (tenant_id url : GoString) (vs : List (Video Time)) (v : Video Time)
      → find_video tenant_id url vs ≡ none
      → v.tenant_id ≡ tenant_id
      → v.source_url ≡ url
      → find_video tenant_id url (vs ++ v ∷ []) ≡ some v
  find_video-append tenant_id url [] v missing its_tenant its_url =
      rw (its_tenant, its_url, text_eq_refl tenant_id, text_eq_refl url) refl
  find_video-append tenant_id url (x ∷ xs) v missing its_tenant its_url =
      elim (Bool-cases ((x.tenant_id === tenant_id) && (x.source_url === url))) [
        | inl matches ↦ cc (rw matches at missing)
        | inr differs ↦
            passed_cons tenant_id url x (xs ++ v ∷ []) differs
            ∙ find_video-append tenant_id url xs v (rw differs at missing) its_tenant its_url
      ]

  upserted_found :
      (tenant_id url : GoString) (o : Option (Video Time)) (v : Video Time) (vs : List (Video Time))
      → find_video tenant_id url vs ≡ o
      → v.tenant_id ≡ tenant_id
      → v.source_url ≡ url
      → IsKept o (upserted o v vs).1
        × (u : Video Time) × (find_video tenant_id url (upserted o v vs).0 ≡ some u)
        × (u.id ≡ (upserted o v vs).1)
  upserted_found tenant_id url none v vs missing its_tenant its_url =
      (tt, v, find_video-append tenant_id url vs v missing its_tenant its_url, refl)
  upserted_found tenant_id url (some old) v vs found its_tenant its_url =
      let (u, is_u, kept) =
        find_video-update_video tenant_id url old.id
          (λ x. record x { status = v.status; lesson_id = v.lesson_id; duration = v.duration })
          (λ x. (refl, refl, refl)) vs old found in
      (refl, u, is_u, kept)

  -- The upsert gives the id of the video of this tenant and URL.
  pub upserted-IsVideoOf :
      (tenant_id url : GoString) (v : Video Time) (vs : List (Video Time))
      → v.tenant_id ≡ tenant_id
      → v.source_url ≡ url
      → let after = upserted (find_video tenant_id url vs) v vs in
        IsVideoOf tenant_id url vs after.1 after.0
  upserted-IsVideoOf tenant_id url v vs its_tenant its_url =
      upserted_found tenant_id url (find_video tenant_id url vs) v vs refl its_tenant its_url
