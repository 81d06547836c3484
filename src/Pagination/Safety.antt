-- ===== src/Pagination/Safety.antt =====
-- What reaches the SQL text, and what a request is after it has been read.
use memberclass_backend_gola.Pagination.{
  build_safe_sql_pagination, clamped_limit, page_param, PaginationRequest, get_safe_sort_by,
  sort_dir_param, limit_param, sql_direction, build_count_query, parse_pagination_from_query,
  fields_or_default, is_direction, get_limit, get_sort_dir, get_offset, limit_or, page_or,
}
use memberclass_backend_gola.Common.{
  ℕ, ◌≤◌, ◌<◌, ◌≡◌, refl, ◌⊎◌, inl, inr, true, false, Option, none, some, List, ◌++◌, arith, ltb,
  leb, if◌then◌else◌, Bool-cases, length, take, length-take, GoString, str, ◌===◌, text_eq_iff,
  is_empty, to_lower, has_text, index_of, to_upper,
}
use memberclass_backend_gola.Common.Int.{ℤ, pos, negsuc, ◌≤ℤ◌}
use memberclass_backend_gola.Common.Decimal.{format_nat, format_int, parse_int}

-- A page from 1 on, a limit from 1 to 100, and a known direction.
pub record IsValid (req : PaginationRequest) : Type 0 where
  pub page_from_one : pos 1 ≤ℤ req.page
  pub limit_from_one : pos 1 ≤ℤ req.limit
  pub limit_to_100 : req.limit ≤ℤ pos 100
  pub direction : is_direction req.sort_dir ≡ true

page_or_lem : (o : Option ℤ) → pos 1 ≤ℤ page_or o
page_or_lem none = omega arith
page_or_lem (some page) = ground arith

limit_or_lem : (o : Option ℤ) → (pos 1 ≤ℤ limit_or o) × (limit_or o ≤ℤ pos 100)
limit_or_lem none = (omega arith, omega arith)
limit_or_lem (some limit) = ground arith

page_param_lem : (o : Option GoString) → pos 1 ≤ℤ page_param o
page_param_lem none = omega arith
page_param_lem (some text) = page_or_lem (parse_int text)

limit_param_lem : (o : Option GoString) → (pos 1 ≤ℤ limit_param o) × (limit_param o ≤ℤ pos 100)
limit_param_lem none = (omega arith, omega arith)
limit_param_lem (some text) = limit_or_lem (parse_int text)

sort_dir_param_lem : (o : Option GoString) → is_direction (sort_dir_param o) ≡ true
unfolding sort_dir_param is_direction ◌===◌
sort_dir_param_lem none = refl
sort_dir_param_lem (some s) = elim (Bool-cases (is_direction (to_lower s))) [
  | inl h ↦ rw h h
  | inr h ↦ rw h refl
]

-- Whatever the query parameters are, the request that is read from them is valid.
pub parse_pagination_from_query-IsValid :
    (query_params : GoString → Option GoString) → IsValid (parse_pagination_from_query query_params)
unfolding parse_pagination_from_query
parse_pagination_from_query-IsValid query_params =
    let limits = limit_param_lem (query_params (str "limit")) in
    record {
      page_from_one = page_param_lem (query_params (str "page"));
      limit_from_one = limits.0;
      limit_to_100 = limits.1;
      direction = sort_dir_param_lem (query_params (str "sortDir"));
    }

-- A SQL identifier for ORDER BY: an allowed field or the default column.
pub data IsField (allowed : List GoString) (field : GoString) : Type 0 where
  listed : has_text field allowed ≡ true → IsField allowed field
  default_column : field ≡ str "created_at" → IsField allowed field

get_safe_sort_by-IsField :
    (req : PaginationRequest) (allowed : List GoString)
    → IsField (fields_or_default allowed) (get_safe_sort_by req allowed)
unfolding get_safe_sort_by
get_safe_sort_by-IsField req allowed = elim (Bool-cases (is_empty req.sort_by)) [
  | inl e ↦ rw e (default_column refl)
  | inr e ↦ elim (Bool-cases (has_text req.sort_by (fields_or_default allowed))) [
    | inl h ↦ rw (e, h) (listed h)
    | inr h ↦ rw (e, h) (default_column refl)
  ]
]

sql_direction_lem : (s : GoString) → (sql_direction s ≡ str "ASC") ⊎ (sql_direction s ≡ str "DESC")
unfolding sql_direction
sql_direction_lem s = elim (Bool-cases (s === str "ASC")) [
  | inl h ↦ rw h (inl ((text_eq_iff s (str "ASC")).0 h))
  | inr h ↦ elim (Bool-cases (s === str "DESC")) [
    | inl k ↦ rw (h, k) (inr ((text_eq_iff s (str "DESC")).0 k))
    | inr k ↦ rw (h, k) (inr refl)
  ]
]

clamped_limit_lem : (l : ℤ) → (n : ℕ) × (clamped_limit l ≡ pos n) × (1 ≤ n) × (n ≤ 100)
clamped_limit_lem (pos l) =
    (if ltb 100 l then 100 else if ltb 0 l then l else 10, ground arith, ground arith, ground arith)
clamped_limit_lem (negsuc l) = (10, ground arith, omega arith, omega arith)

-- Whatever the request says, what follows the query is ORDER BY on an allowed field or on created_at,
-- ASC or DESC, and a LIMIT from 1 to 100 with an OFFSET: no text of the request but an allowed field
-- gets into the SQL.
pub build_safe_sql_pagination_lem :
    (base_query : GoString) (req : PaginationRequest) (allowed : List GoString)
    → (field direction : GoString) × (limit : ℕ) × (offset : ℤ) × ((build_safe_sql_pagination
          base_query req allowed).0
        ≡ base_query
          ++ (str " "
              ++ ((str "ORDER BY " ++ (field ++ (str " " ++ direction)))
                  ++ (str " LIMIT "
                      ++ (format_nat limit ++ (str " OFFSET " ++ format_int offset))))))
      × IsField (fields_or_default allowed) field
      × ((direction ≡ str "ASC") ⊎ (direction ≡ str "DESC"))
      × (1 ≤ limit)
      × (limit ≤ 100)
unfolding build_safe_sql_pagination get_limit format_int
build_safe_sql_pagination_lem base_query req allowed =
    let (n, same, low, high) = clamped_limit_lem req.limit in
    (
      get_safe_sort_by req allowed,
      sql_direction (to_upper (get_sort_dir req)),
      n,
      (get_offset (get_limit req).1).0,
      rw same refl,
      get_safe_sort_by-IsField req allowed,
      sql_direction_lem (to_upper (get_sort_dir req)),
      low,
      high,
    )

-- Defect: where " order by " comes before " limit ", the second cut is past the end of what the first
-- has left, and the function panics.
pub build_count_query_panics :
    (base_query : GoString) (i j : ℕ)
    → index_of (str " order by ") (to_lower base_query) ≡ some i
    → index_of (str " limit ") (to_lower base_query) ≡ some j
    → i < j
    → build_count_query base_query ≡ none
unfolding build_count_query
build_count_query_panics base_query i j ordered limited h =
    elim (Bool-cases (leb i (length base_query))) [
      | inl within ↦
          let past : leb j (length (take i base_query)) ≡ false =
            ground (arith, length-take i base_query) in
          rw (ordered, within, limited, past) refl
      | inr beyond ↦ rw (ordered, beyond) refl
    ]
