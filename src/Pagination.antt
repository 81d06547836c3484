-- ===== src/Pagination.antt =====
-- internal/domain/dto/pagination.go and internal/domain/usecases/pagination/pagination_utils.go. A
-- method that changes its request returns the new one.
pub mod Safety
mod Examples
use memberclass_backend_gola.Common.{
  ℕ, zero, suc, ◌+◌, ◌-◌, ◌*◌, ◌/◌, ◌%◌, ◌^◌, ◌≤◌, ◌<◌, min, String, ◌≡◌, refl, sym, ap, ◌∙◌,
  ◌≡⟨◌⟩◌, ◌∎, ◌≢◌, ◌↔◌, ◌⊎◌, inl, inr, Bool, true, false, not, ◌&&◌, ◌||◌, Option, none, some, List,
  [], ◌∷◌, ◌++◌, map, append-nil, append_assoc, arith, ltb, leb, ◌==◌, if◌then◌else◌, Bool-cases,
  Option-cases, is_some, ==_iff, ltb→lt, lt→ltb, leb→le, le→leb, length, take, drop, replicate, All,
  All-take, All-filter_by, All-implies, All-concat, filter_by, length-append, All-append, All-map,
  All-flat_map, All-sort_by, flat_map, sort_by, length-take, length-drop, take-append-drop,
  GoString, str, ◌===◌, text_eq_refl, text_eq_iff, is_empty, until, split, is_space, trim_left,
  trim_right, trim_space, to_lower_byte, to_lower, index_of, to_upper, has_text,
}
use memberclass_backend_gola.Common.Int.{
  ℤ, pos, negsuc, pos_part, neg_part, sub_ℕ, ltb_ℤ, ◌≤ℤ◌, half_64, mod_64, wrap_sub, ◌+64◌, ◌-64◌,
  Fits, wrap_sub-pos, wrap_sub-negsuc, +64_pos, -64_pos, -64_negsuc, ◌*64◌,
}
use memberclass_backend_gola.Common.Decimal.{
  format_nat, format_int, parse_int, parse_int-format_int,
}

pub record PaginationRequest : Type 0 where
  pub page : ℤ
  pub limit : ℤ
  pub sort_by : GoString
  pub sort_dir : GoString

abbrev pub default_sort_fields : List GoString
default_sort_fields =
    str "createdAt" ∷ str "updatedAt" ∷ str "id" ∷ str "name" ∷ str "email" ∷ str "date" ∷ []

-- What the code takes for a list that is not given.
abbrev pub fields_or_default : List GoString → List GoString
fields_or_default [] = default_sort_fields
fields_or_default (f ∷ fs) = f ∷ fs

abbrev pub at_least_one : ℤ → ℤ
at_least_one page = if ltb_ℤ (pos 0) page then page else pos 1

abbrev pub clamped_limit : ℤ → ℤ
clamped_limit limit =
    if ltb_ℤ (pos 0) limit then (if ltb_ℤ (pos 100) limit then pos 100 else limit) else pos 10

unfoldable pub get_offset : PaginationRequest → ℤ × PaginationRequest
get_offset p =
    let page = at_least_one p.page in ((page -64 pos 1) *64 p.limit, record p { page = page })

unfoldable pub get_limit : PaginationRequest → ℤ × PaginationRequest
get_limit p = let limit = clamped_limit p.limit in (limit, record p { limit = limit })

unfoldable pub get_sort_by : PaginationRequest → GoString
get_sort_by p = if is_empty p.sort_by then str "createdAt" else p.sort_by

unfoldable pub get_safe_sort_by : PaginationRequest → List GoString → GoString
unfolding has_text
get_safe_sort_by p allowed_fields =
    if is_empty p.sort_by
    then str "created_at"
    else (if has_text p.sort_by (fields_or_default allowed_fields)
        then p.sort_by
        else str "created_at")

unfoldable pub get_sort_dir : PaginationRequest → GoString
get_sort_dir p = if is_empty p.sort_dir then str "desc" else p.sort_dir

pub record PaginationMeta : Type 0 where
  pub page : ℤ
  pub limit : ℤ
  pub total_count : ℕ
  pub total_pages : ℕ
  pub has_next_page : Bool
  pub has_prev_page : Bool

-- math.Ceil of the quotient as floats, which is exact for totals below 2^45.
abbrev pub ceil_div : ℕ → ℤ → ℕ
ceil_div total (pos limit) = (total + (limit - 1)) / limit
ceil_div total (negsuc limit) = 0

-- A count of rows is not negative.
unfoldable pub new_pagination_meta : ℕ → PaginationRequest → PaginationMeta
unfolding get_limit
new_pagination_meta total req =
    let limit = (get_limit req).0 in
    let page = at_least_one req.page in
    let total_pages = ceil_div total limit in
    record {
      page = page;
      limit = limit;
      total_count = total;
      total_pages = total_pages;
      has_next_page = ltb_ℤ page (pos total_pages);
      has_prev_page = ltb_ℤ (pos 1) page;
    }

-- The map of the query parameters is a function.
abbrev pub page_or : Option ℤ → ℤ
page_or none = pos 1
page_or (some page) = if ltb_ℤ (pos 0) page then page else pos 1

abbrev pub limit_or : Option ℤ → ℤ
limit_or none = pos 10
limit_or (some limit) = if ltb_ℤ (pos 0) limit && not (ltb_ℤ (pos 100) limit) then limit else pos 10

abbrev pub page_param : Option GoString → ℤ
page_param none = pos 1
page_param (some text) = page_or (parse_int text)

abbrev pub limit_param : Option GoString → ℤ
limit_param none = pos 10
limit_param (some text) = limit_or (parse_int text)

abbrev pub sort_by_param : Option GoString → GoString
sort_by_param none = str "createdAt"
sort_by_param (some sort_by) = if is_empty sort_by then str "createdAt" else sort_by

unfoldable pub is_direction : GoString → Bool
unfolding ◌===◌
is_direction s = (s === str "asc") || (s === str "desc")

unfoldable pub sort_dir_param : Option GoString → GoString
unfolding is_direction
sort_dir_param none = str "desc"
sort_dir_param (some sort_dir) =
    if is_direction (to_lower sort_dir) then to_lower sort_dir else str "desc"

unfoldable pub parse_pagination_from_query : (GoString → Option GoString) → PaginationRequest
unfolding sort_dir_param
parse_pagination_from_query query_params = record {
  page = page_param (query_params (str "page"));
  limit = limit_param (query_params (str "limit"));
  sort_by = sort_by_param (query_params (str "sortBy"));
  sort_dir = sort_dir_param (query_params (str "sortDir"));
}

unfoldable pub sql_direction : GoString → GoString
unfolding ◌===◌
sql_direction sort_dir =
    if (sort_dir === str "ASC") || (sort_dir === str "DESC") then sort_dir else str "DESC"

-- GetLimit comes first: the offset is reckoned with the clamped limit. Also the request afterwards.
unfoldable pub build_safe_sql_pagination :
    GoString → PaginationRequest → List GoString → GoString × PaginationRequest
unfolding get_safe_sort_by get_sort_dir sql_direction get_limit get_offset
build_safe_sql_pagination base_query req allowed_sort_fields =
    let sort_by = get_safe_sort_by req allowed_sort_fields in
    let sort_dir = sql_direction (to_upper (get_sort_dir req)) in
    let order_by = str "ORDER BY " ++ (sort_by ++ (str " " ++ sort_dir)) in
    let (limit, req1) = get_limit req in
    let (offset, req2) = get_offset req1 in
    (
      base_query
          ++ (str " "
              ++ (order_by
                  ++ (str " LIMIT "
                      ++ (format_int limit ++ (str " OFFSET " ++ format_int offset))))),
      req2,
    )

unfoldable pub build_sql_pagination : GoString → PaginationRequest → GoString × PaginationRequest
build_sql_pagination base_query req = build_safe_sql_pagination base_query req []

-- `baseQuery[:i]`, none for the panic of an index out of range.
abbrev pub cut_at : Option ℕ → GoString → Option GoString
cut_at none base_query = some base_query
cut_at (some i) base_query = if leb i (length base_query) then some (take i base_query) else none

abbrev pub then_cut : Option ℕ → Option GoString → Option GoString
then_cut i none = none
then_cut i (some base_query) = cut_at i base_query

abbrev pub count_of : Option GoString → Option GoString
count_of none = none
count_of (some base_query) =
    some (str "SELECT COUNT(*) FROM (" ++ (base_query ++ str ") AS count_query"))

-- The indices are those of the whole query; none is a panic.
unfoldable pub build_count_query : GoString → Option GoString
build_count_query base_query =
    let query = to_lower base_query in
    count_of (
      then_cut (index_of (str " offset ") query) (
        then_cut (index_of (str " limit ") query)
          (cut_at (index_of (str " order by ") query) base_query)))

unfoldable pub validate_sort_by : GoString → List GoString → GoString
unfolding has_text
validate_sort_by sort_by allowed_fields =
    if is_empty sort_by
    then str "createdAt"
    else (if has_text sort_by (fields_or_default allowed_fields) then sort_by else str "createdAt")

abbrev pub valid_direction : GoString → GoString
valid_direction sort_dir =
    let lowered = to_lower (if is_empty sort_dir then str "desc" else sort_dir) in
    if is_direction lowered then lowered else str "desc"

unfoldable pub validate_pagination_request_with_fields :
    PaginationRequest → List GoString → PaginationRequest
unfolding validate_sort_by
validate_pagination_request_with_fields req allowed_sort_fields = record {
  page = at_least_one req.page;
  limit = clamped_limit req.limit;
  sort_by =
      if is_empty req.sort_by
      then str "createdAt"
      else validate_sort_by req.sort_by allowed_sort_fields;
  sort_dir = valid_direction req.sort_dir;
}

unfoldable pub validate_pagination_request : PaginationRequest → PaginationRequest
validate_pagination_request req = validate_pagination_request_with_fields req []

unfoldable pub is_sort_field_allowed : GoString → List GoString → Bool
is_sort_field_allowed sort_by allowed_fields = has_text sort_by (fields_or_default allowed_fields)
