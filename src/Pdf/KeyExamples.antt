-- ===== src/Pdf/KeyExamples.antt =====
-- Runs of the rotation of keys and of the extraction of images.
use memberclass_backend_gola.Common.{
  ℕ, ◌≡◌, refl, ◌≢◌, ◌⊎◌, inl, inr, false, List, [], ◌∷◌, if◌then◌else◌, Bool-cases, GoString, str,
  ◌===◌, text_eq_refl, text_eq_iff, has_text, has_prefix, index_of, split, trim_space, some,
}
use memberclass_backend_gola.Common.Int.{pos}
use memberclass_backend_gola.RateLimit.Cache.{message, ok, err, Redis}
use memberclass_backend_gola.Pdf.Cleanup.{contains_any, contains}
use memberclass_backend_gola.Common.{map}
use memberclass_backend_gola.Pdf.{has_suffix}
use memberclass_backend_gola.Pdf.Pages.{base64_data}
use memberclass_backend_gola.Pdf.Images.{
  ZipFile, images_of, extract_images_from_zip, extract_images_from_zip-pictures, pictures,
  starts_with, handle_zip_file, zip_images, some_images, is_image_name, data_url,
}
use memberclass_backend_gola.Pdf.Keys.{
  served, spent, found, Answered, response, failure, token_and_task, task_of, by_its_error,
  is_credits_exhausted_error, get_token_and_create_task, load_api_keys, keys_or_error, trimmed_keys,
}
use memberclass_backend_gola.Pdf.Rotation.{Remembers, get_token_and_create_task-found}

-- A cache that is the list of its keys.
abbrev listed : Redis
listed = record {
  State = List GoString;
  get = λ k s. (err (message (str "redis: nil")), s);
  set = λ k v e s. (ok tt, k ∷ s);
  incr_by = λ k d s. (ok d, s);
  exists = λ k s. (ok (if has_text k s then 1 else 0), s);
  ttl = λ k s. (ok (pos 0), s);
  del = λ k s. (ok tt, s);
}

listed_others : (k j : GoString) (s : List GoString) → j ≢ k → has_text j (k ∷ s) ≡ has_text j s
unfolding has_text
listed_others k j s differs = elim (Bool-cases (j === k)) [
  | inl same ↦ absurd (differs ((text_eq_iff j k).0 same))
  | inr other ↦ rw other refl
]

listed-Remembers : Remembers listed has_text
unfolding has_text
listed-Remembers = record {
  exists_lem = λ k s. refl;
  set_lem = λ k v e s. (rw (text_eq_refl k) refl, λ j differs. listed_others k j s differs);
}

abbrev asks : GoString → ℕ → Answered GoString
asks key n = if key === str "b" then response key else failure (str "Quota!")

abbrev starts : GoString → ℕ → Answered ℕ
starts token n = response n

loads : load_api_keys (str "a, ,b") ≡ ok (str "a" ∷ str "b" ∷ [])
unfolding load_api_keys keys_or_error trimmed_keys split trim_space
loads = refl

asks_other :
    (k : GoString) (n : ℕ)
    → (k === str "b") ≡ false
    → token_and_task starts n (asks k n) ≡ spent (str "Quota!")
unfolding token_and_task task_of by_its_error is_credits_exhausted_error contains_any contains
    index_of has_prefix
asks_other k n other = rw other refl

get_token_and_create_task-found_example :
    (a : GoString × ℕ) × (s : List GoString) × (get_token_and_create_task listed asks starts
        (str "a" ∷ str "b" ∷ [])
        []
      ≡ (found a, s))
unfolding token_and_task task_of has_text ◌===◌
get_token_and_create_task-found_example =
    get_token_and_create_task-found listed has_text listed-Remembers asks starts
      (str "a" ∷ str "b" ∷ []) (str "b") [] tries (λ n. ((str "b", n), refl)) refl refl
  where
    tries :
        (k : GoString) (n : ℕ)
        → ((a : GoString × ℕ) × (token_and_task starts n (asks k n) ≡ served a))
          ⊎ ((text : GoString) × (token_and_task starts n (asks k n) ≡ spent text))
    tries k n = elim (Bool-cases (k === str "b")) [
      | inl same ↦ inl ((k, n), rw same refl)
      | inr other ↦ inr (str "Quota!", asks_other k n other)
    ]

-- An archive of two pictures and a text, with base64 that leaves the bytes as they are.
abbrev archive : List ZipFile
archive =
    record { name = str "1.JPG"; content = some (str "one") }
    ∷ record { name = str "readme.txt"; content = some (str "text") }
    ∷ record { name = str "2.jpeg"; content = some (str "two") }
    ∷ []

extracts :
    extract_images_from_zip (λ b. b) (λ _. some archive) (str "PK..")
    ≡ images_of ((str "data:image/jpeg;base64,one") ∷ (str "data:image/jpeg;base64,two") ∷ [])
unfolding extract_images_from_zip starts_with handle_zip_file zip_images some_images is_image_name
    has_suffix data_url ◌===◌
extracts = refl

extract_images_from_zip-pictures_example :
    map
      (λ i. some (base64_data i))
      ((str "data:image/jpeg;base64,one") ∷ (str "data:image/jpeg;base64,two") ∷ [])
    ≡ map some (pictures (λ b. b) (λ _. some archive) (str "PK.."))
extract_images_from_zip-pictures_example =
    extract_images_from_zip-pictures (λ b. b) (λ _. some archive) some (λ b. refl) (str "PK..")
      ((str "data:image/jpeg;base64,one") ∷ (str "data:image/jpeg;base64,two") ∷ []) extracts
