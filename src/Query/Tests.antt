-- ===== src/Query/Tests.antt =====
-- Runs and instances of the theorems on paging and ordering.
use grpcx.Common.{◌-◌, ◌*◌, ◌^◌, ◌≤◌, ◌<◌, ◌≡◌, refl, arith, ◌↔◌}
use grpcx.Query.{OffsetPaging, new_offset_paging, offset, to_string, new_order, parse_direction}
use grpcx.Query.Paging.{offset_exact_iff}

third_page : offset (new_offset_paging 3 20) ≡ 40
unfolding offset new_offset_paging
third_page = refl

descending : to_string (new_order "name" (parse_direction "DESC")) ≡ "name DESC NULLS LAST"
unfolding to_string new_order parse_direction
descending = refl

abbrev far_page : OffsetPaging
far_page = record { page = 42949674; page_size = 100 }

offset_exact_iff_example :
    ((offset far_page ≡ (42949674 - 1) * 100) ↔ ((42949674 - 1) * 100 < 2 ^ 32))
    × (2 ^ 32 ≤ (42949674 - 1) * 100 → offset far_page < (42949674 - 1) * 100)
offset_exact_iff_example = offset_exact_iff 42949674 100 (omega arith) (omega arith)
