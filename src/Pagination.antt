-- ===== src/Pagination.antt =====
-- app/interfaces/http/shared/pagination.py: page numbers, offsets and the number of pages.
pub mod Cover
use fast_api_scaff.Prelude.{
  ℕ, ◌+◌, ◌-◌, ◌*◌, ◌/◌, ◌||◌, not, List, map, leb, if◌then◌else◌, Option, some, none,
}

-- `PageParams`
pub record PageParams : Type 0 where
  pub page : ℕ
  pub limit : ℕ

abbrev pub max_limit : ℕ
max_limit = 1000

-- The bounds of the fields; `none` is the `ValidationError`.
unfoldable pub new_page_params : PageParams → Option PageParams
new_page_params p =
    if not (leb 1 p.page) || (not (leb 1 p.limit) || not (leb p.limit max_limit))
    then none
    else some p

-- `PageParams.offset`
unfoldable pub offset : PageParams → ℕ
offset p = (p.page - 1) * p.limit

-- `PageMeta`
pub record PageMeta : Type 0 where
  pub page : ℕ
  pub limit : ℕ
  pub total : ℕ
  pub total_pages : ℕ

pub record PageResponse (A : Type 0) : Type 0 where
  pub items : List A
  pub page_meta : PageMeta

-- `calculate_total_pages`
unfoldable pub calculate_total_pages : ℕ → ℕ → ℕ
calculate_total_pages total limit = (total + limit - 1) / limit

-- `build_page_response`
unfoldable pub build_page_response :
    {S T : Type 0} → List S → ℕ → PageParams → (S → T) → PageResponse T
unfolding calculate_total_pages
build_page_response items total pagination item_mapper = record {
  items = map item_mapper items;
  page_meta = record {
    page = pagination.page;
    limit = pagination.limit;
    total = total;
    total_pages = calculate_total_pages total pagination.limit;
  };
}
