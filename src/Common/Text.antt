-- ===== src/Common/Text.antt =====
-- Go strings are sequences of bytes: a `GoString` is a list of numbers, so that code which walks,
-- cuts and compares texts is a recursion. A literal is written `str "…"`, in ASCII only.
use mathlib.Core.Option.{Option, none, some}
use Prim.Native.Nat.{ℕ, ◌+◌, ◌-◌, suc}
use Prim.Native.Char.{code}
use Prim.Native.String.{String}
use mathlib.Core.Path.{◌≡◌, refl}
use mathlib.Core.Logic.{◌↔◌, ◌≢◌}
use mathlib.Core.Bool.{Bool, true, false, ◌&&◌, ◌||◌}
use mathlib.Core.List.{List, [], ◌∷◌, reverse, map}
use native.Mathlib.Omega.{arith}
use memberclass_backend_gola.Common.Tests.{◌==◌, leb, if◌then◌else◌, ltb}

abbrev pub GoString : Type 0
GoString = List ℕ

abbrev pub str : String → GoString
str String.[] = []
str (String.◌∷◌ c s) = code c ∷ str s

infix 50 ◌===◌
unfoldable pub ◌===◌ : GoString → GoString → Bool
[] === [] = true
[] === (_ ∷ _) = false
(_ ∷ _) === [] = false
(x ∷ xs) === (y ∷ ys) = (x == y) && (xs === ys)

pub text_eq_refl : (s : GoString) → (s === s) ≡ true
unfolding ◌===◌
text_eq_refl [] = refl
text_eq_refl (x ∷ xs) = ground (arith, text_eq_refl xs)

pub text_eq_iff : (s t : GoString) → ((s === t) ≡ true) ↔ (s ≡ t)
unfolding ◌===◌
text_eq_iff [] [] = ground arith
text_eq_iff [] (y ∷ ys) = ground arith
text_eq_iff (x ∷ xs) [] = ground arith
text_eq_iff (x ∷ xs) (y ∷ ys) = ground (arith, text_eq_iff xs ys)

abbrev pub is_empty : GoString → Bool
is_empty [] = true
is_empty (_ ∷ _) = false

-- The first of the parts that strings.Split(s, sep) returns, for a separator of one byte.
unfoldable pub until : ℕ → GoString → GoString
until sep [] = []
until sep (c ∷ cs) = if c == sep then [] else c ∷ until sep cs

-- strings.Split(s, sep) for a separator of one byte: never empty.
split_from : ℕ → GoString → GoString → List GoString
split_from sep cur [] = reverse cur ∷ []
split_from sep cur (c ∷ cs) =
    let cut = reverse cur ∷ split_from sep [] cs in
    let on = split_from sep (c ∷ cur) cs in if c == sep then cut else on

unfoldable pub split : ℕ → GoString → List GoString
unfolding split_from
split sep s = split_from sep [] s

-- unicode.IsSpace on ASCII: tab, newline, vertical tab, form feed, carriage return, blank.
abbrev pub is_space : ℕ → Bool
is_space c = (leb 9 c && leb c 13) || (c == 32)

unfoldable pub trim_left : GoString → GoString
trim_left [] = []
trim_left (c ∷ cs) = let rest = trim_left cs in if is_space c then rest else c ∷ cs

unfoldable pub trim_right : GoString → GoString
unfolding trim_left
trim_right s = reverse (trim_left (reverse s))

-- strings.TrimSpace, for texts in ASCII.
unfoldable pub trim_space : GoString → GoString
unfolding trim_right
trim_space s = trim_right (trim_left s)

-- strings.ToLower, for texts in ASCII.
abbrev pub to_lower_byte : ℕ → ℕ
to_lower_byte c = if leb b'A' c && leb c b'Z' then c + 32 else c

abbrev pub to_lower : GoString → GoString
to_lower s = map to_lower_byte s

pub text_differs : (s t : GoString) → (s === t) ≡ false → s ≢ t
text_differs s t differs same =
    let equal : (s === t) ≡ true = rw same (text_eq_refl t) in cc (equal, differs)

-- The order of texts, byte by byte.
unfoldable pub text_leb : GoString → GoString → Bool
text_leb [] t = true
text_leb (x ∷ xs) [] = false
text_leb (x ∷ xs) (y ∷ ys) = let rest = text_leb xs ys in if x == y then rest else ltb x y

-- `slices.Contains`
unfoldable pub has_text : GoString → List GoString → Bool
unfolding ◌===◌
has_text s [] = false
has_text s (t ∷ ts) = (s === t) || has_text s ts

-- strings.HasPrefix, with the prefix first.
unfoldable pub has_prefix : GoString → GoString → Bool
has_prefix [] s = true
has_prefix (c ∷ cs) [] = false
has_prefix (c ∷ cs) (d ∷ ds) = (c == d) && has_prefix cs ds

abbrev one_later : Option ℕ → Option ℕ
one_later none = none
one_later (some i) = some (suc i)

-- strings.Index, with the text that is looked for first; none for -1.
unfoldable pub index_of : GoString → GoString → Option ℕ
unfolding has_prefix
index_of sep [] = if is_empty sep then some 0 else none
index_of sep (c ∷ cs) =
    let later = one_later (index_of sep cs) in if has_prefix sep (c ∷ cs) then some 0 else later

-- strings.ToUpper, for texts in ASCII.
abbrev pub to_upper_byte : ℕ → ℕ
to_upper_byte c = if leb b'a' c && leb c b'z' then c - 32 else c

abbrev pub to_upper : GoString → GoString
to_upper s = map to_upper_byte s
