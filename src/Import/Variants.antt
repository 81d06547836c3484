-- ===== src/Import/Variants.antt =====
-- The variants of a document.
use memberclass_backend_gola.Import.Documents.{
  document_variants, append_unique, strip_non_digits, formatted,
}
use memberclass_backend_gola.Common.{
  ◌≡◌, refl, sym, ap, ◌∙◌, inl, inr, true, false, List, [], ◌∷◌, ◌++◌, ◌==◌, Bool-cases, length,
  All, All-concat, GoString, ◌===◌, text_eq_refl, text_eq_iff, is_empty, has_text,
}

-- No text stands twice.
abbrev pub AllDifferent : List GoString → Type 0
AllDifferent [] = Unit
AllDifferent (x ∷ xs) = (has_text x xs ≡ false) × AllDifferent xs

differs_sym : (s t : GoString) → (s === t) ≡ false → (t === s) ≡ false
differs_sym s t differs = elim (Bool-cases (t === s)) [
  | inl same ↦
      let equal : (s === t) ≡ true = rw ((text_eq_iff t s).0 same) (text_eq_refl s) in
      cc (equal, differs)
  | inr other ↦ other
]

has_text_last :
    (x v : GoString) (out : List GoString)
    → has_text x out ≡ false
    → (x === v) ≡ false
    → has_text x (out ++ v ∷ []) ≡ false
unfolding has_text
has_text_last x v [] h differs = rw differs refl
has_text_last x v (t ∷ ts) h differs = elim (Bool-cases (x === t)) [
  | inl same ↦ cc (rw same at h)
  | inr other ↦ rw other (has_text_last x v ts (rw other at h) differs)
]

AllDifferent-last :
    (v : GoString) (out : List GoString)
    → AllDifferent out
    → has_text v out ≡ false
    → AllDifferent (out ++ v ∷ [])
unfolding has_text
AllDifferent-last v [] d h = (refl, tt)
AllDifferent-last v (t ∷ ts) d h = elim (Bool-cases (v === t)) [
  | inl same ↦ cc (rw same at h)
  | inr other ↦
      (has_text_last t v ts d.0 (differs_sym v t other), AllDifferent-last v ts d.1 (rw other at h))
]

-- A list that starts with this text, of different texts that are not empty.
abbrev pub GoodVariants : GoString → List GoString → Type 0
GoodVariants raw out =
    (rest : List GoString) × (out ≡ raw ∷ rest)
    × AllDifferent (raw ∷ rest)
    × All (λ v. is_empty v ≡ false) (raw ∷ rest)

GoodVariants-append :
    (raw v : GoString) (out : List GoString)
    → GoodVariants raw out
    → GoodVariants raw (append_unique v out)
unfolding append_unique
GoodVariants-append raw v out (rest, shape, different, solid) = elim (Bool-cases (is_empty v)) [
  | inl nothing ↦ rw nothing (rest, shape, different, solid)
  | inr something ↦ elim (Bool-cases (has_text v out)) [
    | inl known ↦ rw (something, known) (rest, shape, different, solid)
    | inr unknown ↦
        rw (something, unknown)
          (
            rest ++ v ∷ [],
            ap (λ o. o ++ v ∷ []) shape,
            AllDifferent-last v (raw ∷ rest) different (ap (has_text v) (sym shape) ∙ unknown),
            All-concat (λ t. is_empty t ≡ false) (raw ∷ rest) v solid something,
          )
  ]
]

-- The variants of a document that is not empty start with the document as it was typed, no variant
-- stands twice, and none is empty.
pub document_variants_lem :
    (raw : GoString) → is_empty raw ≡ false → GoodVariants raw (document_variants raw)
unfolding document_variants
document_variants_lem [] given = cc given
document_variants_lem (c ∷ cs) given =
    let raw = c ∷ cs in
    let digits = strip_non_digits raw in
    let out = append_unique digits (raw ∷ []) in
    let first = GoodVariants-append raw digits (raw ∷ []) ([], refl, (refl, tt), (refl, tt)) in
    elim (Bool-cases (length digits == 11)) [
      | inl cpf ↦ rw cpf (GoodVariants-append raw (formatted digits) out first)
      | inr other ↦ rw other first
    ]
