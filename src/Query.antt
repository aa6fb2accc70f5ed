-- ===== src/Query.antt =====
-- query/paging.go and query/order.go: the paging and the order of list queries. A uint32 is a
-- number below 2 ^ 32, and its arithmetic wraps.
pub mod Paging
pub mod Ordering
mod Tests
use mathlib.Core.Bool.{◌&&◌, not}
use grpcx.Common.{ℕ, ◌+◌, ◌-◌, ◌*◌, ◌%◌, ◌^◌, ◌≤◌, String, ◌≡◌, ltb, ◌==◌, if◌then◌else◌, str_eq}
use grpcx.Common.{arith}
use grpcx.Common.Text.{equal_fold, ◌+++◌}

-- DefaultPage, DefaultPageSize and MaxPageSize
abbrev pub default_page : ℕ
default_page = 1

abbrev pub default_page_size : ℕ
default_page_size = 10

abbrev pub max_page_size : ℕ
max_page_size = 100

pub record OffsetPaging : Type 0 where
  pub page : ℕ
  pub page_size : ℕ

unfoldable pub new_offset_paging : ℕ → ℕ → OffsetPaging
new_offset_paging page page_size =
    let page' = if ltb page default_page then default_page else page in
    let sized = if page_size == 0 then default_page_size else page_size in
    let capped = if ltb max_page_size sized then max_page_size else sized in
    record { page = page'; page_size = capped }

-- int((p.Page - 1) * p.PageSize), in uint32
unfoldable pub offset : OffsetPaging → ℕ
offset p = (p.page + 2 ^ 32 - 1) % 2 ^ 32 * p.page_size % 2 ^ 32

unfoldable pub limit : OffsetPaging → ℕ
limit p = p.page_size

-- Direction is a string type: any text may stand in it.
abbrev pub Direction : Type 0
Direction = String

abbrev pub asc : Direction
asc = "ASC"

abbrev pub desc : Direction
desc = "DESC"

pub record Order : Type 0 where
  pub column : String
  pub direction : Direction

unfoldable pub new_order : String → Direction → Order
new_order column dir =
    let column' = if str_eq column "" then "created_at" else column in
    let dir' = if not (str_eq dir asc) && not (str_eq dir desc) then asc else dir in
    record { column = column'; direction = dir' }

-- Order.String
unfoldable pub to_string : Order → String
to_string o =
    if str_eq o.direction desc
    then o.column +++ " DESC NULLS LAST"
    else o.column +++ " ASC NULLS FIRST"

unfoldable pub parse_direction : String → Direction
unfolding equal_fold
parse_direction s = if equal_fold s "desc" then desc else asc
