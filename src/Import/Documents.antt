-- ===== src/Import/Documents.antt =====
-- cpf.go.
use memberclass_backend_gola.Common.{
  ℕ, Bool, ◌&&◌, ◌||◌, List, [], ◌∷◌, ◌++◌, leb, ◌==◌, if◌then◌else◌, length, take, drop, filter_by,
  GoString, str, is_empty, has_text,
}

abbrev pub is_digit : ℕ → Bool
is_digit c = leb b'0' c && leb c b'9'

unfoldable pub strip_non_digits : GoString → GoString
strip_non_digits s = filter_by is_digit s

-- appendUnique
unfoldable pub append_unique : GoString → List GoString → List GoString
unfolding has_text
append_unique v out = if is_empty v || has_text v out then out else out ++ v ∷ []

-- `XXX.XXX.XXX-XX`
abbrev pub formatted : GoString → GoString
formatted digits =
    take 3 digits
    ++ (str "."
        ++ (take 3 (drop 3 digits)
            ++ (str "." ++ (take 3 (drop 6 digits) ++ (str "-" ++ take 2 (drop 9 digits))))))

unfoldable pub document_variants : GoString → List GoString
unfolding append_unique strip_non_digits
document_variants raw =
    if is_empty raw
    then []
    else let digits = strip_non_digits raw in
      let out = append_unique digits (raw ∷ []) in
      if length digits == 11 then append_unique (formatted digits) out else out
