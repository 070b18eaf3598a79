-- ===== src/OrderFulfillment/Totals.antt =====
-- The totals of a report on orders (backend/app/services/order_fulfillment.py).
use k_aikei.Prelude.{
  ℕ, ◌≡◌, refl, ◌∙◌, List, [], ◌∷◌, All, map, ◌==◌, if◌then◌else◌, arith, Bool-cases, inl, inr,
}
use k_aikei.Prelude.Int.{ℤ, pos, ◌+ℤ◌, int_laws}
use k_aikei.Prelude.Totals.{sum_of, has_duplicates}
use k_aikei.Prelude.Sorting.{sum_of-sort_by}
use k_aikei.Result.{ok, raise_if, bind_ok}
use k_aikei.OrderFulfillment.{
  Order, Shipment, OrderProgress, CustomerBacklog, OrderFulfillmentResult, Processed, add_backlog,
  group_backlogs, has_backlog, backlog_of, fulfillment_of, process, process_orders, check_orders,
  check_shipments,
}
use k_aikei.OrderFulfillment.Recognition.{IsConsistent, amount_of, orders_lem, check_orders_lem}

-- the backlog of the orders that have one
abbrev pub open_backlog : OrderProgress → ℤ
open_backlog p = if has_backlog p then p.backlog_amount else pos 0

sum_of-add_backlog :
    (p : OrderProgress) (bs : List CustomerBacklog)
    → sum_of backlog_of (add_backlog p bs) ≡ p.backlog_amount +ℤ sum_of backlog_of bs
unfolding add_backlog
sum_of-add_backlog p [] = refl
sum_of-add_backlog p (b ∷ bs) = elim (Bool-cases (b.customer_code == p.customer_code)) [
  | inl same ↦ rw same (omega int_laws)
  | inr other ↦ rw (other, sum_of-add_backlog p bs) (omega int_laws)
]

sum_of-group_backlogs :
    (ps : List OrderProgress) (bs : List CustomerBacklog)
    → sum_of backlog_of (group_backlogs ps bs) ≡ sum_of open_backlog ps +ℤ sum_of backlog_of bs
unfolding group_backlogs
sum_of-group_backlogs [] bs = omega int_laws
sum_of-group_backlogs (p ∷ ps) bs = elim (Bool-cases (has_backlog p)) [
  | inl some_left ↦
      rw (some_left, sum_of-group_backlogs ps (add_backlog p bs), sum_of-add_backlog p bs)
        (omega int_laws)
  | inr settled ↦ rw (settled, sum_of-group_backlogs ps bs) (omega int_laws)
]

zero_right : (a : ℤ) → a +ℤ pos 0 ≡ a
zero_right a = omega int_laws

fulfillment_lem :
    (line_id : ℕ → ℕ → ℕ) (as_of : ℕ) (out : Processed)
    → (sum_of amount_of (fulfillment_of line_id as_of out).sales_entries ≡ sum_of amount_of out.1)
      × ((fulfillment_of line_id as_of out).total_backlog_amount ≡ sum_of open_backlog out.0)
unfolding fulfillment_of
fulfillment_lem line_id as_of (ps, es) = (
  sum_of-sort_by _ amount_of es,
  sum_of-sort_by _ backlog_of (group_backlogs ps [])
      ∙ sum_of-group_backlogs ps []
      ∙ zero_right (sum_of open_backlog ps),
)

-- What the report says when one is returned. Of no order is more shipped than was ordered, and of an
-- order that is completed exactly the amount of the order is recognized and there is no backlog,
-- however its quantity was split. The total that is recognized is the sum of the sales entries, and
-- the total backlog is the sum of the backlogs of the orders that have one.
pub process_lem :
    (line_id : ℕ → ℕ → ℕ) (as_of : ℕ) (orders : List Order) (shipments : List Shipment)
    {r : OrderFulfillmentResult}
    → process line_id as_of orders shipments ≡ ok r
    → All IsConsistent r.orders
      × (sum_of amount_of r.sales_entries ≡ r.total_recognized_amount)
      × (r.total_backlog_amount ≡ sum_of open_backlog r.orders)
unfolding process fulfillment_of
process_lem line_id as_of orders shipments {r} h =
    let (_, _, h1) = bind_ok (raise_if (has_duplicates (map (λ o. o.order_id) orders)) _) _ h in
    let (_, _, h2) =
      bind_ok (raise_if (has_duplicates (map (λ s. s.shipment_id) shipments)) _) _ h1 in
    let (_, good, h3) = bind_ok (check_orders orders) _ h2 in
    let (_, _, h4) = bind_ok (check_shipments orders shipments) _ h3 in
    let (out, run, h5) = bind_ok (process_orders as_of shipments orders) _ h4 in
    let (fine, sums) = orders_lem as_of shipments orders (check_orders_lem orders good) run in
    let (entries, backlog) = fulfillment_lem line_id as_of out in
    let same : fulfillment_of line_id as_of out ≡ r = ground arith in
    rw (← same) (fine, entries ∙ sums, backlog)
