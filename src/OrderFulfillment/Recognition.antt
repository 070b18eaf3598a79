-- ===== src/OrderFulfillment/Recognition.antt =====
-- What is recognized of an order (backend/app/services/order_fulfillment.py).
use k_aikei.Prelude.{
  ℕ, ◌≡◌, refl, Bool, true, false, List, [], ◌∷◌, ◌++◌, All, keep_if, ◌==◌, ltb, arith, Bool-cases,
  inl, inr, if◌then◌else◌, some, not,
}
use k_aikei.Prelude.Int.{ℤ, pos, ◌+ℤ◌, ◌-ℤ◌, ◌≤ℤ◌, ltb_ℤ, leb_ℤ, eqb_ℤ_iff, int_laws}
use k_aikei.Prelude.Totals.{sum_of, sum_of-append}
use k_aikei.Prelude.Sorting.{sort_by}
use k_aikei.Result.{ok, bind_ok}
use k_aikei.OrderFulfillment.{
  Order, Shipment, SalesEntry, OrderProgress, Ledger, completed, on_hold, partially_shipped,
  not_shipped, price_of, shipment_amount, ship, ship_all, opened, entry_of, status_of, progress_of,
  process_order, process_orders, Processed, check_orders, recognized_of, is_shippable, ships_before,
}

abbrev pub amount_of : SalesEntry → ℤ
amount_of e = e.amount

abbrev pub order_total : Order → ℤ
order_total o = price_of o.quantity o.unit_price

-- The ledger of an order: what is recognized is the sum of the entries, no more is shipped than was
-- ordered, and when all is shipped the whole order is recognized.
abbrev pub Agrees : Order → Ledger → Type 0
Agrees o l =
    (sum_of amount_of l.entries ≡ l.recognized)
    × (l.shipped ≤ℤ o.quantity)
    × (l.shipped ≡ o.quantity → l.recognized ≡ order_total o)

closes : (a b : ℤ) → a +ℤ (b -ℤ a) ≡ b
closes a b = omega int_laws

amount_closes :
    (o : Order) (s : Shipment) (l : Ledger)
    → l.shipped +ℤ s.quantity ≡ o.quantity
    → l.recognized +ℤ shipment_amount o s l ≡ order_total o
unfolding shipment_amount
amount_closes o s l h =
    rw ((eqb_ℤ_iff (l.shipped +ℤ s.quantity) o.quantity).1 h) (closes l.recognized (order_total o))

ship-Agrees :
    (o : Order) (s : Shipment) (l : Ledger) {l' : Ledger}
    → Agrees o l
    → ship o s l ≡ ok l'
    → Agrees o l'
unfolding ship
ship-Agrees o s l {l'} (sums, most, whole) h =
    elim (Bool-cases (ltb_ℤ o.quantity (l.shipped +ℤ s.quantity))) [
      | inl over ↦ cc (rw over at h)
      | inr fits ↦
          let amount = shipment_amount o s l in
          let next : Ledger = record {
            shipped = l.shipped +ℤ s.quantity;
            recognized = l.recognized +ℤ amount;
            last_shipped = some s.shipped_date;
            entries = l.entries ++ entry_of o s amount ∷ [];
          } in
          let same : next ≡ l' = ground (arith, rw fits at h) in
          rw (← same) (
            rw (sum_of-append amount_of l.entries (entry_of o s amount ∷ []), sums)
                (omega int_laws),
            ground (arith, fits),
            amount_closes o s l,
          )
    ]

ship_all-Agrees :
    (o : Order) (ss : List Shipment) (l : Ledger) {l' : Ledger}
    → Agrees o l
    → ship_all o ss l ≡ ok l'
    → Agrees o l'
unfolding ship_all
ship_all-Agrees o [] l {l'} a h = let same : l ≡ l' = ground arith in rw (← same) a
ship_all-Agrees o (s ∷ ss) l a h =
    let (l', first, rest) = bind_ok (ship o s l) (λ x. ship_all o ss x) h in
    ship_all-Agrees o ss l' (ship-Agrees o s l a first) rest

opened-Agrees : (o : Order) → leb_ℤ o.quantity (pos 0) ≡ false → Agrees o opened
opened-Agrees o Positive = (refl, ground (arith, Positive), λ e. cc (rw (← e) at Positive))

-- What the report on an order says: no more is shipped than was ordered, and of an order that is
-- completed all is shipped, the whole amount is recognized and there is no backlog.
abbrev pub IsConsistent : OrderProgress → Type 0
IsConsistent p =
    (p.shipped_quantity ≤ℤ p.ordered_quantity)
    × (p.status ≡ completed
        → (p.shipped_quantity ≡ p.ordered_quantity)
          × (p.recognized_amount ≡ p.order_amount)
          × (p.backlog_amount ≡ pos 0))

not_completed :
    (may_ship some_shipped : Bool)
    → (if not may_ship then on_hold else if some_shipped then partially_shipped else not_shipped)
      ≡ completed
    → true ≡ false
not_completed true true e = cc
not_completed true false e = cc
not_completed false some_shipped e = cc

rest_le : (a : ℤ) → leb_ℤ a (pos 0) ≡ true → a ≤ℤ pos 0
rest_le a h = ground arith

nothing_left : (a b : ℤ) → b ≤ℤ a → (a -ℤ b) ≤ℤ pos 0 → b ≡ a
nothing_left a b most rest = omega int_laws

all_shipped :
    (o : Order) (l : Ledger)
    → l.shipped ≤ℤ o.quantity
    → status_of o l ≡ completed
    → l.shipped ≡ o.quantity
all_shipped o l most done = elim (Bool-cases (leb_ℤ (o.quantity -ℤ l.shipped) (pos 0))) [
  | inl none_left ↦
      nothing_left o.quantity l.shipped most (rest_le (o.quantity -ℤ l.shipped) none_left)
  | inr left ↦
      cc (not_completed (is_shippable o.credit_status) (ltb_ℤ (pos 0) l.shipped) (rw left at done))
]

zero_left : (a : ℤ) → a -ℤ a ≡ pos 0
zero_left a = omega int_laws

progress-IsConsistent :
    (as_of : ℕ) (o : Order) (l : Ledger) → Agrees o l → IsConsistent (progress_of as_of o l)
unfolding progress_of
progress-IsConsistent as_of o l (sums, most, whole) = (
  most,
  λ done.
      let e = all_shipped o l most done in (e, whole e, rw (whole e) (zero_left (order_total o))),
)

unfoldable pub Positive : List Order → Type 0
Positive os = All (λ o. leb_ℤ o.quantity (pos 0) ≡ false) os

pub check_orders_lem : (os : List Order) → check_orders os ≡ ok tt → Positive os
unfolding check_orders Positive
check_orders_lem [] h = tt
check_orders_lem (o ∷ os) h = elim (Bool-cases (leb_ℤ o.quantity (pos 0))) [
  | inl bad ↦ cc (rw bad at h)
  | inr good ↦ elim (Bool-cases (ltb_ℤ o.unit_price (pos 0))) [
    | inl bad ↦ cc (rw (good, bad) at h)
    | inr fine ↦ elim (Bool-cases (ltb o.delivery_date o.order_date)) [
      | inl bad ↦ cc (rw (good, fine, bad) at h)
      | inr late ↦ (good, check_orders_lem os (rw (good, fine, late) at h))
    ]
  ]
]

order_lem :
    (as_of : ℕ) (ss : List Shipment) (o : Order) {out : OrderProgress × List SalesEntry}
    → leb_ℤ o.quantity (pos 0) ≡ false
    → process_order as_of ss o ≡ ok out
    → IsConsistent out.0 × (sum_of amount_of out.1 ≡ out.0.recognized_amount)
unfolding process_order progress_of
order_lem as_of ss o {out} good h =
    let mine = sort_by ships_before (keep_if (λ s. s.order_id == o.order_id) ss) in
    let (l, run, rest) =
      bind_ok (ship_all o mine opened) (λ l. ok (progress_of as_of o l, l.entries)) h in
    let a = ship_all-Agrees o mine opened (opened-Agrees o good) run in
    let same : (progress_of as_of o l, l.entries) ≡ out = ground arith in
    rw (← same) (progress-IsConsistent as_of o l a, a.0)

abbrev pub recognized_amounts : List OrderProgress → ℤ
recognized_amounts ps = sum_of recognized_of ps

pub orders_lem :
    (as_of : ℕ) (ss : List Shipment) (os : List Order) {out : Processed}
    → Positive os
    → process_orders as_of ss os ≡ ok out
    → All IsConsistent out.0 × (sum_of amount_of out.1 ≡ recognized_amounts out.0)
unfolding process_orders Positive
orders_lem as_of ss [] {out} good h =
    let same : ([], []) ≡ out = ground arith in rw (← same) (tt, refl)
orders_lem as_of ss (o ∷ os) {out} good h =
    let (first, run, h1) = bind_ok (process_order as_of ss o) _ h in
    let (rest, runs, h2) = bind_ok (process_orders as_of ss os) _ h1 in
    let (fine, sum_first) = order_lem as_of ss o good.0 run in
    let (all_fine, sum_rest) = orders_lem as_of ss os good.1 runs in
    let same : (first.0 ∷ rest.0, first.1 ++ rest.1) ≡ out = ground arith in
    rw (← same)
      ((fine, all_fine), rw (sum_of-append amount_of first.1 rest.1, sum_first, sum_rest) refl)
