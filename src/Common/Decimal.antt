-- ===== src/Common/Decimal.antt =====
-- strconv: decimal printing (FormatInt, Itoa) and reading (ParseInt, Atoi) of int64 values.
use memberclass_backend_gola.Common.{
  ℕ, zero, suc, ◌+◌, ◌-◌, ◌*◌, ◌/◌, ◌%◌, ◌<◌, ◌≡◌, Bool, ◌&&◌, [], ◌∷◌, Option, none, some, arith,
  ltb, leb, ◌==◌, if◌then◌else◌, GoString, Bool-cases, inl, inr, true,
}
use memberclass_backend_gola.Common.Int.{ℤ, pos, negsuc, half_64, Fits}

-- The digits of n in front of `rest`; `suc n` is fuel enough, since n / 10 < n.
digits_onto : ℕ → ℕ → GoString → GoString
digits_onto zero n rest = rest
digits_onto (suc fuel) n rest =
    let more = digits_onto fuel (n / 10) ((b'0' + n % 10) ∷ rest) in
    if ltb n 10 then (b'0' + n) ∷ rest else more

unfoldable pub format_nat : ℕ → GoString
unfolding digits_onto
format_nat n = digits_onto (suc n) n []

unfoldable pub format_int : ℤ → GoString
unfolding format_nat
format_int (pos n) = format_nat n
format_int (negsuc n) = b'-' ∷ format_nat (suc n)

abbrev pub is_digit : ℕ → Bool
is_digit c = leb b'0' c && leb c b'9'

-- `none` is strconv.ErrSyntax.
read_digits : ℕ → GoString → Option ℕ
read_digits acc [] = some acc
read_digits acc (c ∷ cs) = if is_digit c then read_digits (acc * 10 + (c - b'0')) cs else none

read_unsigned : GoString → Option ℕ
unfolding read_digits
read_unsigned [] = none
read_unsigned (c ∷ cs) = read_digits 0 (c ∷ cs)

-- `none` is strconv.ErrRange.
in_range_pos : Option ℕ → Option ℤ
in_range_pos none = none
in_range_pos (some n) = if ltb n half_64 then some (pos n) else none

in_range_neg : Option ℕ → Option ℤ
in_range_neg none = none
in_range_neg (some n) =
    if leb n half_64 then some (if n == 0 then pos 0 else negsuc (n - 1)) else none

unfoldable pub parse_int : GoString → Option ℤ
unfolding read_unsigned in_range_pos in_range_neg
parse_int [] = none
parse_int (c ∷ cs) =
    if c == b'-'
    then in_range_neg (read_unsigned cs)
    else if c == b'+'
    then in_range_pos (read_unsigned cs)
    else in_range_pos (read_unsigned (c ∷ cs))

read_digits-digits_onto :
    (fuel n : ℕ) (rest : GoString)
    → n < fuel
    → read_digits 0 (digits_onto fuel n rest) ≡ read_digits n rest
unfolding read_digits digits_onto
read_digits-digits_onto zero n rest h = absurd (omega arith)
read_digits-digits_onto (suc fuel) n rest h =
    ground (arith, read_digits-digits_onto fuel (n / 10) ((b'0' + n % 10) ∷ rest))

-- The digits are not empty, and the first one is no sign.
digits_onto_head :
    (fuel n : ℕ) (rest : GoString)
    → n < fuel
    → (c : ℕ) × (cs : GoString) × (digits_onto fuel n rest ≡ c ∷ cs) × (is_digit c ≡ true)
unfolding digits_onto
digits_onto_head zero n rest h = absurd (omega arith)
digits_onto_head (suc fuel) n rest h = elim (Bool-cases (ltb n 10)) [
  | inl small ↦ (b'0' + n, rest, ground arith, ground arith)
  | inr large ↦
      let (c, cs, e, d) = digits_onto_head fuel (n / 10) ((b'0' + n % 10) ∷ rest) (ground arith) in
      (c, cs, rw large e, d)
]

read_unsigned-format_nat : (n : ℕ) → read_unsigned (format_nat n) ≡ some n
unfolding read_unsigned format_nat read_digits
read_unsigned-format_nat n =
    let (c, cs, e, d) = digits_onto_head (suc n) n [] (omega arith) in
    let r = read_digits-digits_onto (suc n) n [] (omega arith) in rw e (rw e at r)

parse_int_of_digits :
    (c : ℕ) (cs : GoString)
    → is_digit c ≡ true
    → parse_int (c ∷ cs) ≡ in_range_pos (read_unsigned (c ∷ cs))
unfolding parse_int
parse_int_of_digits c cs h = ground arith

parse_int-format_nat : (n : ℕ) → n < half_64 → parse_int (format_nat n) ≡ some (pos n)
unfolding in_range_pos
parse_int-format_nat n h =
    let (c, cs, e, d) = digits_onto_head (suc n) n [] (omega arith) in
    let shape : format_nat n ≡ c ∷ cs = unfold format_nat in e in
    rw shape (
      rw (parse_int_of_digits c cs d)
        (rw (← shape) (rw (read_unsigned-format_nat n) (ground arith))))

-- An int64 that is printed and read again is unchanged.
pub parse_int-format_int : (z : ℤ) → Fits z → parse_int (format_int z) ≡ some z
unfolding format_int parse_int
parse_int-format_int (pos n) h = parse_int-format_nat n h.0
parse_int-format_int (negsuc n) h = rw (read_unsigned-format_nat (suc n)) (ground arith)
