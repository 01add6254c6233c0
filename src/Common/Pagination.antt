-- ===== src/Common/Pagination.antt =====
-- The paging that every `findAll` and `findByOrganization` shares, and the query and the page of
-- src/common/interfaces/index.ts and src/common/dto/pagination-query.dto.ts.
use complif_techinical_chall.Base.{
  ℕ, ◌+◌, ◌-◌, ◌*◌, ◌/◌, ◌≤◌, ◌<◌, Option, none, some, List, get_or, arith, leb, Bool, ◌&&◌, true,
}

pub record PaginationQuery : Type 0 where
  pub page : Option ℕ
  pub limit : Option ℕ

pub record PaginatedResult (T : Type 0) : Type 0 where
  pub rows : List T
  pub total : ℕ
  pub page : ℕ
  pub limit : ℕ
  pub total_pages : ℕ

-- query.page ?? 1 and query.limit ?? 10
abbrev pub page_of : PaginationQuery → ℕ
page_of q = get_or q.page 1

abbrev pub limit_of : PaginationQuery → ℕ
limit_of q = get_or q.limit 10

-- (page - 1) * limit, for the page numbers that validation lets through
unfoldable pub skip_of : PaginationQuery → ℕ
skip_of q = (page_of q - 1) * limit_of q

-- Math.ceil(total / limit), for a positive limit
unfoldable pub ceil_div : ℕ → ℕ → ℕ
ceil_div total limit = (total + (limit - 1)) / limit

-- The validation of the query: `page` from 1, `limit` from 1 to 100, where they are given.
abbrev valid_option : (ℕ → Bool) → Option ℕ → Bool
valid_option p none = true
valid_option p (some n) = p n

unfoldable pub is_valid_query : PaginationQuery → Bool
is_valid_query q = valid_option (leb 1) q.page && valid_option (λ n. leb 1 n && leb n 100) q.limit

unfoldable pub paginated : {T : Type 0} → PaginationQuery → List T × ℕ → PaginatedResult T
unfolding ceil_div
paginated q (rows, total) = record {
  rows = rows;
  total = total;
  page = page_of q;
  limit = limit_of q;
  total_pages = ceil_div total (limit_of q);
}

-- For a positive limit every row is on one of the pages: the pages reach the total, and the last
-- one is not empty.
pub total_pages_bounds :
    (total limit : ℕ)
    → 0 < limit
    → (total ≤ ceil_div total limit * limit) × (ceil_div total limit * limit < total + limit)
unfolding ceil_div
total_pages_bounds total limit h = (grind arith, grind arith)
