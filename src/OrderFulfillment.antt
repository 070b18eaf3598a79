-- ===== src/OrderFulfillment.antt =====
-- backend/app/services/order_fulfillment.py: the shipments of orders turned into sales, backlog and
-- delays. Quantities and prices are in thousandths, so their product is in millionths of a yen;
-- amounts are whole yen. Dates are day numbers. Identifiers are numbers, which are compared and
-- ordered as the strings of the source are.
mod Records
pub mod Recognition
pub mod Totals
mod Tests
unfoldable pub use Records.*
use text.Mathlib.Text.{◌==◌ as str_eq}
use k_aikei.Prelude.{
  ℕ, ◌+◌, ◌*◌, ◌-◌, ◌/◌, Bool, true, false, not, ◌&&◌, ◌||◌, Option, none, some, String, List, [],
  ◌∷◌, ◌++◌, map, any, leb, ltb, ◌==◌, if◌then◌else◌, keep_if,
}
use k_aikei.Prelude.Int.{ℤ, pos, negsuc, ◌+ℤ◌, ◌-ℤ◌, ltb_ℤ, leb_ℤ, eqb_ℤ}
use k_aikei.Prelude.Totals.{sum_of, has_duplicates}
use k_aikei.Prelude.Sorting.{sort_by}
use k_aikei.Result.{Result, ok, err, ◌>>=◌, ◌>>◌, raise_if}

-- `_round` of a product that is not negative: to the nearest yen, and a half goes up
unfoldable pub round_yen : ℕ → ℕ
round_yen n = (n + 500000) / 1000000

-- `_round(quantity * unit_price)`, where both have been checked not to be negative
abbrev pub price_of : ℤ → ℤ → ℤ
price_of (pos q) (pos p) = pos (round_yen (q * p))
price_of _ _ = pos 0

-- The tuple that `sorted` compares: `(item.shipped_date, item.shipment_id)`
abbrev pub ships_before : Shipment → Shipment → Bool
ships_before a b =
    ltb a.shipped_date b.shipped_date
    || a.shipped_date == b.shipped_date && leb a.shipment_id b.shipment_id

abbrev pub entry_of : Order → Shipment → ℤ → SalesEntry
entry_of o s amount = record {
  shipment_id = s.shipment_id;
  order_id = o.order_id;
  customer_code = o.customer_code;
  customer_name = o.customer_name;
  sales_date = s.shipped_date;
  quantity = s.quantity;
  amount = amount;
  tax_rate = o.tax_rate;
  description = o.description;
}

-- The amount of a shipment: of the one that completes the order, what has not been recognized yet.
unfoldable pub shipment_amount : Order → Shipment → Ledger → ℤ
shipment_amount o s l =
    if eqb_ℤ (l.shipped +ℤ s.quantity) o.quantity
    then price_of o.quantity o.unit_price -ℤ l.recognized
    else price_of s.quantity o.unit_price

-- one round of the loop over an order's shipments
unfoldable pub ship : Order → Shipment → Ledger → Result String Ledger
ship o s l =
    let amount = shipment_amount o s l in
    (do
      raise_if (ltb_ℤ o.quantity (l.shipped +ℤ s.quantity)) "shipment beyond the ordered quantity"
      ok (record {
        shipped = l.shipped +ℤ s.quantity;
        recognized = l.recognized +ℤ amount;
        last_shipped = some s.shipped_date;
        entries = l.entries ++ entry_of o s amount ∷ [];
      }))

unfoldable pub ship_all : Order → List Shipment → Ledger → Result String Ledger
ship_all o [] l = ok l
ship_all o (s ∷ ss) l = do l' ← ship o s l; ship_all o ss l'

-- _SHIPPABLE_CREDIT
abbrev pub is_shippable : String → Bool
is_shippable status = str_eq status "approved" || str_eq status "warning"

abbrev pub status_of : Order → Ledger → Status
status_of o l =
    if leb_ℤ (o.quantity -ℤ l.shipped) (pos 0)
    then completed
    else if not (is_shippable o.credit_status)
    then on_hold
    else if ltb_ℤ (pos 0) l.shipped
    then partially_shipped
    else not_shipped

abbrev pub is_completed : Status → Bool
is_completed completed = true
is_completed _ = false

unfoldable pub progress_of : ℕ → Order → Ledger → OrderProgress
progress_of as_of o l = record {
  order_id = o.order_id;
  customer_code = o.customer_code;
  customer_name = o.customer_name;
  delivery_date = o.delivery_date;
  status = status_of o l;
  ordered_quantity = o.quantity;
  shipped_quantity = l.shipped;
  remaining_quantity = o.quantity -ℤ l.shipped;
  order_amount = price_of o.quantity o.unit_price;
  recognized_amount = l.recognized;
  backlog_amount = price_of o.quantity o.unit_price -ℤ l.recognized;
  last_shipped_date = l.last_shipped;
  delay_days =
      if not (is_completed (status_of o l)) && ltb o.delivery_date as_of
      then as_of - o.delivery_date
      else 0;
}

-- the loop over the orders, each with its own shipments
abbrev pub opened : Ledger
opened = record { shipped = pos 0; recognized = pos 0; last_shipped = none; entries = [] }

unfoldable pub process_order :
    ℕ → List Shipment → Order → Result String (OrderProgress × List SalesEntry)
process_order as_of shipments o = do
  l ← ship_all o (sort_by ships_before (keep_if (λ s. s.order_id == o.order_id) shipments)) opened
  ok (progress_of as_of o l, l.entries)

abbrev pub Processed : Type 0
Processed = List OrderProgress × List SalesEntry

unfoldable pub process_orders : ℕ → List Shipment → List Order → Result String Processed
process_orders as_of shipments [] = ok ([], [])
process_orders as_of shipments (o ∷ os) = do
  first ← process_order as_of shipments o
  rest ← process_orders as_of shipments os
  ok (first.0 ∷ rest.0, first.1 ++ rest.1)

-- the checks, in their order
unfoldable pub check_orders : List Order → Result String (Unit {0})
check_orders [] = ok tt
check_orders (o ∷ os) = do
  raise_if (leb_ℤ o.quantity (pos 0)) "quantity must be Positive"
  raise_if (ltb_ℤ o.unit_price (pos 0)) "unit_price must not be negative"
  raise_if (ltb o.delivery_date o.order_date) "delivery_date must not precede order_date"
  check_orders os

unfoldable pub check_shipments : List Order → List Shipment → Result String (Unit {0})
check_shipments os [] = ok tt
check_shipments os (s ∷ ss) = do
  raise_if (not (any (λ o. o.order_id == s.order_id) os)) "shipment without an order"
  raise_if (leb_ℤ s.quantity (pos 0)) "shipment quantity must be Positive"
  check_shipments os ss

abbrev pub has_backlog : OrderProgress → Bool
has_backlog p = ltb_ℤ (pos 0) p.backlog_amount

-- `backlog_by_customer[code].append(progress)`, with the group's sum and size
unfoldable pub add_backlog : OrderProgress → List CustomerBacklog → List CustomerBacklog
add_backlog p [] =
    record {
      customer_code = p.customer_code;
      customer_name = p.customer_name;
      order_backlog = p.backlog_amount;
      open_order_count = 1;
    }
    ∷ []
add_backlog p (b ∷ bs) =
    if b.customer_code == p.customer_code
    then record b {
      order_backlog = b.order_backlog +ℤ p.backlog_amount;
      open_order_count = b.open_order_count + 1;
    }
      ∷ bs
    else b ∷ add_backlog p bs

unfoldable pub group_backlogs : List OrderProgress → List CustomerBacklog → List CustomerBacklog
group_backlogs [] bs = bs
group_backlogs (p ∷ ps) bs = group_backlogs ps (if has_backlog p then add_backlog p bs else bs)

abbrev pub is_on_hold : Status → Bool
is_on_hold on_hold = true
is_on_hold _ = false

abbrev pub recognized_of : OrderProgress → ℤ
recognized_of p = p.recognized_amount

abbrev pub backlog_of : CustomerBacklog → ℤ
backlog_of b = b.order_backlog

abbrev pub id_of : OrderProgress → ℕ
id_of p = p.order_id

-- `line_id order shipment` is the place of that text in the order of texts.
unfoldable pub fulfillment_of : (ℕ → ℕ → ℕ) → ℕ → Processed → OrderFulfillmentResult
fulfillment_of line_id as_of (progresses, entries) =
    let backlogs =
      sort_by (λ a b. leb a.customer_code b.customer_code) (group_backlogs progresses []) in
    record {
      as_of = as_of;
      orders = progresses;
      sales_entries =
          sort_by
            (λ a b.
              ltb a.sales_date b.sales_date
              || a.sales_date == b.sales_date
                && leb (line_id a.order_id a.shipment_id) (line_id b.order_id b.shipment_id))
            entries;
      backlogs = backlogs;
      total_recognized_amount = sum_of recognized_of progresses;
      total_backlog_amount = sum_of backlog_of backlogs;
      delayed_order_ids = map id_of (keep_if (λ p. ltb 0 p.delay_days) progresses);
      on_hold_order_ids = map id_of (keep_if (λ p. is_on_hold p.status) progresses);
    }

-- `OrderFulfillmentService.process`
unfoldable pub process :
    (ℕ → ℕ → ℕ) → ℕ → List Order → List Shipment → Result String OrderFulfillmentResult
process line_id as_of orders shipments = do
  raise_if (has_duplicates (map (λ o. o.order_id) orders)) "order_id must be unique"
  raise_if (has_duplicates (map (λ s. s.shipment_id) shipments)) "shipment_id must be unique"
  check_orders orders
  check_shipments orders shipments
  processed ← process_orders as_of shipments orders
  ok (fulfillment_of line_id as_of processed)
