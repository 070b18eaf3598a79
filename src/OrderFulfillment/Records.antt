-- ===== src/OrderFulfillment/Records.antt =====
-- backend/app/services/order_fulfillment.py: the records of orders, shipments and what follows from
-- them. Quantities and prices are in thousandths, amounts are whole yen, dates are day numbers.
use k_aikei.Prelude.{ℕ, Option, String, List}
use k_aikei.Prelude.Int.{ℤ}

-- STATUS_NOT_SHIPPED, STATUS_PARTIALLY_SHIPPED, STATUS_COMPLETED and STATUS_ON_HOLD
pub data Status : Type 0 where
  not_shipped partially_shipped completed on_hold : Status

pub record Order : Type 0 where
  pub order_id : ℕ
  pub customer_code : ℕ
  pub customer_name : String
  pub order_date : ℕ
  pub delivery_date : ℕ
  pub quantity : ℤ
  pub unit_price : ℤ
  pub tax_rate : ℕ
  pub description : String
  pub credit_status : String

pub record Shipment : Type 0 where
  pub shipment_id : ℕ
  pub order_id : ℕ
  pub shipped_date : ℕ
  pub quantity : ℤ

-- An entry is told apart by its order and shipment, of which its `line_id` is made.
pub record SalesEntry : Type 0 where
  pub shipment_id : ℕ
  pub order_id : ℕ
  pub customer_code : ℕ
  pub customer_name : String
  pub sales_date : ℕ
  pub quantity : ℤ
  pub amount : ℤ
  pub tax_rate : ℕ
  pub description : String

pub record OrderProgress : Type 0 where
  pub order_id : ℕ
  pub customer_code : ℕ
  pub customer_name : String
  pub delivery_date : ℕ
  pub status : Status
  pub ordered_quantity : ℤ
  pub shipped_quantity : ℤ
  pub remaining_quantity : ℤ
  pub order_amount : ℤ
  pub recognized_amount : ℤ
  pub backlog_amount : ℤ
  pub last_shipped_date : Option ℕ
  pub delay_days : ℕ

-- `shipped_quantity`, `recognized`, `last_shipped` and the entries of one order, as the loop goes on
pub record Ledger : Type 0 where
  pub shipped : ℤ
  pub recognized : ℤ
  pub last_shipped : Option ℕ
  pub entries : List SalesEntry

pub record CustomerBacklog : Type 0 where
  pub customer_code : ℕ
  pub customer_name : String
  pub order_backlog : ℤ
  pub open_order_count : ℕ

pub record OrderFulfillmentResult : Type 0 where
  pub as_of : ℕ
  pub orders : List OrderProgress
  pub sales_entries : List SalesEntry
  pub backlogs : List CustomerBacklog
  pub total_recognized_amount : ℤ
  pub total_backlog_amount : ℤ
  pub delayed_order_ids : List ℕ
  pub on_hold_order_ids : List ℕ
