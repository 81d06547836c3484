-- ===== src/Pdf/Images.antt =====
-- The images in what iLovePDF sends: ExtractImagesFromZip of
-- internal/infrastructure/adapters/external_services/ilovepdf/ilovepdf_service.go. base64 and the reader
-- of ZIP files are parameters.
use memberclass_backend_gola.Common.{
  ℕ, ◌≡◌, refl, sym, ap, ◌∙◌, inl, inr, Bool, false, ◌&&◌, ◌||◌, Option, none, some, List, [], ◌∷◌,
  ◌++◌, map, ltb, ◌==◌, if◌then◌else◌, Bool-cases, Option-cases, length, GoString, str, has_prefix,
  to_lower,
}
use memberclass_backend_gola.Pdf.{has_suffix}
use memberclass_backend_gola.Pdf.Pages.{data_url_prefix, base64_data}

-- A file of the archive; no content where opening or reading it fails.
pub record ZipFile : Type 0 where
  pub name : GoString
  pub content : Option GoString

pub data ImageError : Type 0 where
  too_short : ℕ → ImageError
  not_an_image zip_unreadable no_images : ImageError

pub data Extracted : Type 0 where
  images_of : List GoString → Extracted
  no_extract : ImageError → Extracted

unfoldable pub starts_with : ℕ → ℕ → GoString → Bool
starts_with a b [] = false
starts_with a b (x ∷ []) = false
starts_with a b (x ∷ (y ∷ _)) = (x == a) && (y == b)

abbrev pub is_jpeg_image : GoString → Bool
is_jpeg_image data_read = starts_with 255 216 data_read

abbrev pub is_zip_file : GoString → Bool
is_zip_file data_read = starts_with 80 75 data_read

unfoldable pub is_image_name : GoString → Bool
unfolding has_suffix
is_image_name name =
    has_suffix (str ".jpg") (to_lower name) || has_suffix (str ".jpeg") (to_lower name)

module _ (encode : GoString → GoString) (read_zip : GoString → Option (List ZipFile)) where
  unfoldable pub data_url : GoString → GoString
  data_url bytes = data_url_prefix ++ encode bytes

  abbrev pub with_content : Option GoString → List GoString → List GoString
  with_content none rest = rest
  with_content (some bytes) rest = data_url bytes ∷ rest

  unfoldable pub zip_images : List ZipFile → List GoString
  unfolding is_image_name
  zip_images [] = []
  zip_images (f ∷ fs) =
      let rest = zip_images fs in if is_image_name f.name then with_content f.content rest else rest

  unfoldable pub some_images : List GoString → Extracted
  some_images [] = no_extract no_images
  some_images (i ∷ is) = images_of (i ∷ is)

  unfoldable pub handle_zip_file : Option (List ZipFile) → Extracted
  unfolding zip_images some_images
  handle_zip_file none = no_extract zip_unreadable
  handle_zip_file (some files) = some_images (zip_images files)

  unfoldable pub extract_images_from_zip : GoString → Extracted
  unfolding handle_zip_file starts_with data_url
  extract_images_from_zip bytes =
      if ltb (length bytes) 4
      then no_extract (too_short (length bytes))
      else (if is_jpeg_image bytes
          then images_of (data_url bytes ∷ [])
          else (if is_zip_file bytes
              then handle_zip_file (read_zip bytes)
              else no_extract not_an_image))

  -- What the data holds: itself where it is a JPEG image, else the files of the archive that are named
  -- like one and can be read.
  abbrev pub read_files : List ZipFile → List GoString
  read_files [] = []
  read_files (f ∷ fs) = elim f.content [
    | none ↦ read_files fs
    | some bytes ↦ if is_image_name f.name then bytes ∷ read_files fs else read_files fs
  ]

  abbrev pub pictures : GoString → List GoString
  pictures bytes =
      if is_jpeg_image bytes
      then bytes ∷ []
      else elim (read_zip bytes) [ none ↦ [] | some files ↦ read_files files ]

  base64_data-data_url : (bytes : GoString) → base64_data (data_url bytes) ≡ encode bytes
  unfolding base64_data data_url has_prefix
  base64_data-data_url bytes = refl

  module _ (decode : GoString → Option GoString)
      (decode-encode : (bytes : GoString) → decode (encode bytes) ≡ some bytes) where
    decoded : (bytes : GoString) → decode (base64_data (data_url bytes)) ≡ some bytes
    decoded bytes = ap decode (base64_data-data_url bytes) ∙ decode-encode bytes

    zip_images_decoded :
        (files : List ZipFile)
        → map (λ i. decode (base64_data i)) (zip_images files) ≡ map some (read_files files)
    unfolding zip_images
    zip_images_decoded [] = refl
    zip_images_decoded (f ∷ fs) = elim (Option-cases f.content) [
      | inl unread ↦ rw unread (elim (Bool-cases (is_image_name f.name)) [
        | inl named ↦ rw named (zip_images_decoded fs)
        | inr other ↦ rw other (zip_images_decoded fs)
      ])
      | inr (bytes, read) ↦ rw read (elim (Bool-cases (is_image_name f.name)) [
        | inl named ↦ rw named (ap2_cons (decoded bytes) (zip_images_decoded fs))
        | inr other ↦ rw other (zip_images_decoded fs)
      ])
    ]
      where
        ap2_cons : {A : Type 0} {x y : A} {xs ys : List A} → x ≡ y → xs ≡ ys → x ∷ xs ≡ y ∷ ys
        ap2_cons e h i = e i ∷ h i

    some_images_of : (is images : List GoString) → some_images is ≡ images_of images → is ≡ images
    unfolding some_images
    some_images_of [] images e = cc e
    some_images_of (i ∷ is) images e = cc e

    zip_decoded :
        (files : Option (List ZipFile)) (images : List GoString)
        → handle_zip_file files ≡ images_of images
        → map (λ i. decode (base64_data i)) images
          ≡ map some (elim files [ none ↦ [] | some fs ↦ read_files fs ])
    unfolding handle_zip_file
    zip_decoded none images e = cc e
    zip_decoded (some files) images e =
        rw (sym (some_images_of (zip_images files) images e)) (zip_images_decoded files)

    -- Where the extraction gives images, what is stored of them after the prefix is cut off and base64
    -- is undone is what the data holds, in its order: the JPEG image itself, or the readable files of
    -- the archive with the name of one. base64 must undo its own encoding.
    pub extract_images_from_zip-pictures :
        (bytes : GoString) (images : List GoString)
        → extract_images_from_zip bytes ≡ images_of images
        → map (λ i. decode (base64_data i)) images ≡ map some (pictures bytes)
    unfolding extract_images_from_zip
    extract_images_from_zip-pictures bytes images e = elim (Bool-cases (ltb (length bytes) 4)) [
      | inl short ↦ cc (rw short at e)
      | inr long ↦ elim (Bool-cases (is_jpeg_image bytes)) [
        | inl jpeg ↦
            let single : data_url bytes ∷ [] ≡ images =
              images_same _ images (rw (long, jpeg) at e) in
            rw (jpeg, sym single, decoded bytes) refl
        | inr other ↦ elim (Bool-cases (is_zip_file bytes)) [
          | inl zip ↦ rw other (zip_decoded (read_zip bytes) images (rw (long, other, zip) at e))
          | inr neither ↦ cc (rw (long, other, neither) at e)
        ]
      ]
    ]
      where
        images_same : (xs ys : List GoString) → images_of xs ≡ images_of ys → xs ≡ ys
        images_same xs ys h = cc h
