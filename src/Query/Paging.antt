-- ===== src/Query/Paging.antt =====
-- What query/paging.go promises of every page request.
use grpcx.Common.{ℕ, zero, suc, ◌+◌, ◌-◌, ◌*◌, ◌%◌, ◌^◌, ◌≤◌, ◌<◌, ◌≡◌, arith, ◌↔◌}
use grpcx.Query.{OffsetPaging, new_offset_paging, max_page_size, offset, limit}

-- Whatever the raw request values, the page is at least 1, and the page size, which is the limit of
-- the query, lies between 1 and 100; a page size from 1 to 100 and a page from 1 on are kept.
pub new_offset_paging_bounds :
    (page size : ℕ)
    → (1 ≤ (new_offset_paging page size).page)
      × (1 ≤ limit (new_offset_paging page size))
      × (limit (new_offset_paging page size) ≤ max_page_size)
      × (1 ≤ page → (new_offset_paging page size).page ≡ page)
      × (1 ≤ size → size ≤ max_page_size → limit (new_offset_paging page size) ≡ size)
unfolding new_offset_paging limit
new_offset_paging_bounds page size = ground arith

-- p.Page - 1 does not wrap on a page that is at least 1.
page_before : (page : ℕ) → 1 ≤ page → page < 2 ^ 32 → (page + 2 ^ 32 - 1) % 2 ^ 32 ≡ page - 1
page_before page h fits = omega arith

page_after : (page : ℕ) → page + 1 < 2 ^ 32 → (page + 1 + 2 ^ 32 - 1) % 2 ^ 32 ≡ page
page_after page small = omega arith

pred_suc : (page : ℕ) → suc page - 1 ≡ page
pred_suc page = omega arith

suc_page_rows : (page size : ℕ) → 1 ≤ page → page * size ≡ (page - 1) * size + size
suc_page_rows zero size h = elim h [ ]
suc_page_rows (suc page) size h = rw (pred_suc page) (omega arith)

-- For a page from 1 on and below 2 ^ 32, and a page size of at least 1: the offset is the number of
-- rows on the pages before exactly when that number fits 32 bits; otherwise the uint32 product
-- wraps and the offset is smaller.
pub offset_exact_iff :
    (page size : ℕ)
    → 1 ≤ page
    → page < 2 ^ 32
    → let p : OffsetPaging = record { page = page; page_size = size } in
      ((offset p ≡ (page - 1) * size) ↔ ((page - 1) * size < 2 ^ 32))
      × (2 ^ 32 ≤ (page - 1) * size → offset p < (page - 1) * size)
unfolding offset
offset_exact_iff page size h fits = rw (page_before page h fits) (omega arith, omega arith)

-- Consecutive pages are adjacent: the next page starts where the rows of this one end, as long as
-- that row number fits 32 bits.
pub offset-suc_page :
    (page size : ℕ)
    → 1 ≤ page
    → page * size < 2 ^ 32
    → page + 1 < 2 ^ 32
    → offset (record { page = page + 1; page_size = size })
      ≡ offset (record { page = page; page_size = size })
        + limit (record { page = page; page_size = size })
unfolding offset limit
offset-suc_page page size h fits small =
    rw (page_after page small, page_before page h (omega arith))
      (omega (arith, suc_page_rows page size h))
