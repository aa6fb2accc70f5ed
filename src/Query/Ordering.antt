-- ===== src/Query/Ordering.antt =====
-- What query/order.go promises of every ORDER BY fragment.
use grpcx.Common.{String, ◌≡◌, ◌≢◌, ◌⊎◌, ◌↔◌, arith, eq_iff}
use grpcx.Query.{new_order, asc, desc}

-- An order built by NewOrder has a column, has the direction ASC or DESC (DESC only if that was
-- asked for), keeps a column that was given, and is not changed by normalising it again.
pub new_order_normal :
    (column dir : String)
    → ((new_order column dir).column ≢ "")
      × (((new_order column dir).direction ≡ desc) ↔ (dir ≡ desc))
      × (((new_order column dir).direction ≡ asc) ⊎ ((new_order column dir).direction ≡ desc))
      × (column ≢ "" → (new_order column dir).column ≡ column)
      × (new_order (new_order column dir).column (new_order column dir).direction
          ≡ new_order column dir)
unfolding new_order
new_order_normal column dir = ground (
  arith,
  eq_iff column "",
  eq_iff dir asc,
  eq_iff dir desc,
  eq_iff "created_at" "",
  eq_iff asc desc,
)
