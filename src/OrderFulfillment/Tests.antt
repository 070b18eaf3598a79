-- ===== src/OrderFulfillment/Tests.antt =====
-- Tests and witnesses for backend/app/services/order_fulfillment.py.
use k_aikei.Prelude.{ℕ, ◌+◌, ◌*◌, ◌≡◌, refl, some, String, List, [], ◌∷◌, All, map}
use k_aikei.Prelude.Int.{ℤ, pos, negsuc, ◌+ℤ◌, ◌-ℤ◌}
use k_aikei.Prelude.Totals.{sum_of}
use k_aikei.Prelude.Sorting.{insert_sorted, sort_by}
use k_aikei.Result.{Result, ok, err}
use k_aikei.OrderFulfillment.{
  Order, Shipment, SalesEntry, Ledger, OrderFulfillmentResult, process, check_orders,
  check_shipments, process_orders, process_order, ship_all, ship, shipment_amount, round_yen,
  progress_of, fulfillment_of, group_backlogs, add_backlog,
}
use k_aikei.OrderFulfillment.Recognition.{IsConsistent, amount_of}
use k_aikei.OrderFulfillment.Totals.{process_lem, open_backlog}

-- three pieces at 33.335 yen
abbrev order : Order
order = record {
  order_id = 1;
  customer_code = 70;
  customer_name = "";
  order_date = 10;
  delivery_date = 20;
  quantity = pos 3000;
  unit_price = pos 33335;
  tax_rate = 1000;
  description = "";
  credit_status = "approved";
}

abbrev shipment : ℕ → ℕ → ℕ → Shipment
shipment id day pieces = record {
  shipment_id = id;
  order_id = 1;
  shipped_date = day;
  quantity = pos (pieces * 1000);
}

abbrev shipments : List Shipment
shipments = shipment 2 16 1 ∷ shipment 1 15 2 ∷ []

abbrev line : ℕ → ℕ → ℕ
line o s = o * 1000 + s

abbrev amounts : OrderFulfillmentResult → List ℤ
amounts r = map amount_of r.sales_entries

abbrev report_of : Result String OrderFulfillmentResult → List ℤ
report_of (ok r) = amounts r
report_of (err e) = []

report_amounts : report_of (process line 30 (order ∷ []) shipments) ≡ pos 67 ∷ pos 33 ∷ []
unfolding process check_orders check_shipments process_orders process_order ship_all ship
    shipment_amount round_yen sort_by insert_sorted progress_of fulfillment_of group_backlogs
    add_backlog ◌+ℤ◌ ◌-ℤ◌
report_amounts = refl

-- Ten pieces at half a yen, one at a time: the last entry takes back what the rounding added.
abbrev cheap_order : Order
cheap_order = record order { quantity = pos 10000; unit_price = pos 500 }

abbrev singles : List Shipment
singles =
    shipment 1 11 1
    ∷ shipment 2 12 1
    ∷ shipment 3 13 1
    ∷ shipment 4 14 1
    ∷ shipment 5 15 1
    ∷ shipment 6 16 1
    ∷ shipment 7 17 1
    ∷ shipment 8 18 1
    ∷ shipment 9 19 1
    ∷ shipment 10 20 1
    ∷ []

last_amount_is_negative :
    report_of (process line 30 (cheap_order ∷ []) singles)
    ≡ pos 1 ∷ pos 1 ∷ pos 1 ∷ pos 1 ∷ pos 1 ∷ pos 1 ∷ pos 1 ∷ pos 1 ∷ pos 1 ∷ negsuc 3 ∷ []
unfolding process check_orders check_shipments process_orders process_order ship_all ship
    shipment_amount round_yen sort_by insert_sorted progress_of fulfillment_of group_backlogs
    add_backlog ◌+ℤ◌ ◌-ℤ◌
last_amount_is_negative = refl

abbrev sold : ℕ → ℕ → ℤ → ℤ → SalesEntry
sold id day pieces amount = record {
  shipment_id = id;
  order_id = 1;
  customer_code = 70;
  customer_name = "";
  sales_date = day;
  quantity = pieces;
  amount = amount;
  tax_rate = 1000;
  description = "";
}

abbrev sold_entries : List SalesEntry
sold_entries = sold 1 15 (pos 2000) (pos 67) ∷ sold 2 16 (pos 1000) (pos 33) ∷ []

abbrev ledger : Ledger
ledger = record {
  shipped = pos 3000;
  recognized = pos 100;
  last_shipped = some 16;
  entries = sold_entries;
}

abbrev report : OrderFulfillmentResult
report = fulfillment_of line 30 (progress_of 30 order ledger ∷ [], sold_entries)

report_run : process line 30 (order ∷ []) shipments ≡ ok report
unfolding process check_orders check_shipments process_orders process_order ship_all ship
    shipment_amount round_yen sort_by insert_sorted progress_of fulfillment_of group_backlogs
    add_backlog ◌+ℤ◌ ◌-ℤ◌
report_run = refl

process_lem_example :
    All IsConsistent report.orders
    × (sum_of amount_of report.sales_entries ≡ report.total_recognized_amount)
    × (report.total_backlog_amount ≡ sum_of open_backlog report.orders)
process_lem_example = process_lem line 30 (order ∷ []) shipments report_run
