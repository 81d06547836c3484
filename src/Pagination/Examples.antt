-- ===== src/Pagination/Examples.antt =====
-- Runs of the pagination helpers.
use memberclass_backend_gola.Pagination.{
  PaginationRequest, build_safe_sql_pagination, parse_pagination_from_query, build_count_query,
  fields_or_default,
}
use memberclass_backend_gola.Pagination.Safety.{
  IsValid, IsField, parse_pagination_from_query-IsValid, build_safe_sql_pagination_lem,
  build_count_query_panics,
}
use memberclass_backend_gola.Common.{
  ℕ, ◌≤◌, ◌≡◌, refl, ◌⊎◌, Option, none, some, [], ◌++◌, arith, if◌then◌else◌, GoString, str, ◌===◌,
  index_of, has_prefix, has_text,
}
use memberclass_backend_gola.Common.Int.{ℤ, pos, wrap_sub, ◌-64◌, ◌*64◌}
use memberclass_backend_gola.Common.Decimal.{format_nat, format_int}

abbrev injected : PaginationRequest
injected = record {
  page = pos 3;
  limit = pos 500;
  sort_by = str "id; DROP TABLE x";
  sort_dir = str "asc";
}

abbrev injected_sql : GoString
injected_sql = str "q ORDER BY created_at ASC LIMIT 100 OFFSET 200"

clamps : (build_safe_sql_pagination (str "q") injected []).0 ≡ injected_sql
unfolding build_safe_sql_pagination ◌===◌ has_text format_int ◌-64◌ ◌*64◌ wrap_sub
clamps = refl

abbrev asked : GoString → Option GoString
asked key = if key === str "page" then some (str "7") else none

parse_pagination_from_query-IsValid_example : IsValid (parse_pagination_from_query asked)
parse_pagination_from_query-IsValid_example = parse_pagination_from_query-IsValid asked

build_safe_sql_pagination_lem_example :
    (field direction : GoString) × (limit : ℕ) × (offset : ℤ) × ((build_safe_sql_pagination
        (str "q")
        injected
        []).0
      ≡ str "q"
        ++ (str " "
            ++ ((str "ORDER BY " ++ (field ++ (str " " ++ direction)))
                ++ (str " LIMIT " ++ (format_nat limit ++ (str " OFFSET " ++ format_int offset))))))
    × IsField (fields_or_default []) field
    × ((direction ≡ str "ASC") ⊎ (direction ≡ str "DESC"))
    × (1 ≤ limit)
    × (limit ≤ 100)
build_safe_sql_pagination_lem_example = build_safe_sql_pagination_lem (str "q") injected []

build_count_query_panics_example :
    build_count_query (str "q ORDER BY x DESC LIMIT 10 OFFSET 0") ≡ none
unfolding index_of has_prefix
build_count_query_panics_example =
    build_count_query_panics (str "q ORDER BY x DESC LIMIT 10 OFFSET 0") 1 17 refl refl
      (omega arith)
