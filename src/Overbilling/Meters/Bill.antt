-- ===== src/Overbilling/Meters/Bill.antt =====
-- crates/mcp-overbilling/src/meters.rs: the bills of the two meters for a scenario.
use mcp_usage_kit.Core.Method
use mcp_usage_kit.Core.Price
use mcp_usage_kit.Prelude.Assoc
use mcp_usage_kit.Prelude.Sets
use mcp_usage_kit.Core.Charge.{Billable, Call, Charge, billable, free}
use mcp_usage_kit.Core.Method.{Method}
use mcp_usage_kit.Core.Price.{PriceBook}
use mcp_usage_kit.Overbilling.Meters.{
  Exchange, Ledger, Scenario, call_of, count_requests, empty_ledger, meter_exchanges,
  meter_response, named_price, named_rate, price_book, request_counter, request_units, settle_bill,
  settle_charge, terminal_delivery, with_names,
}
use mcp_usage_kit.Overbilling.Meters.Cheaper.{owing-exchanges, requests_sum}
use mcp_usage_kit.Overbilling.Meters.Fair.{units_of}
use mcp_usage_kit.Prelude.{
  Bool-cases, List, Option, Str, [], ap, arith, inl, inr, none, refl, saturating_add, some,
  str_equal, strs_equal, u64_max, ℕ, ◌+◌, ◌>>=◌, ◌∷◌, ◌≡◌, ◌≤◌,
}

with_names-methods :
    (named : List (Str × ℕ)) (prices : PriceBook)
    → prices.methods ≡ []
    → (with_names named prices).methods ≡ []
unfolding with_names Price.with_name
with_names-methods [] prices e = e
with_names-methods ((name, units) ∷ named) prices e =
    with_names-methods named (Price.with_name prices name units) e

price_book-methods : (scenario : Scenario) → (price_book scenario).methods ≡ []
unfolding price_book Price.flat
price_book-methods scenario =
    with_names-methods scenario.named_units (Price.flat scenario.flat_units) refl

name_first :
    (found method_units : Option ℕ) (default_units : ℕ)
    → method_units ≡ none
    → (elim found [
      | some units ↦ units
      | none ↦ elim method_units [ some units ↦ units | none ↦ default_units ]
    ])
      ≡ (elim found [ none ↦ default_units | some units ↦ units ])
name_first (some units) method_units default_units e = refl
name_first none none default_units e = refl
name_first none (some units) default_units e = absurd cc

-- A book without prices of methods prices a call by its name.
units_of-named :
    (prices : PriceBook) (call : Call)
    → prices.methods ≡ []
    → units_of prices call ≡ named_price prices call.name
unfolding Price.units_for named_price Assoc.lookup
units_of-named prices call e =
    name_first (call.name >>= λ n. Assoc.lookup n prices.names) _ prices.default_units
      (ap (λ (methods : List (Str × ℕ)). Assoc.lookup (Method.as_str call.method) methods) e)

-- The counter adds up every request, up to the greatest number of the machine.
count_requests-covers :
    (prices : PriceBook) (exchanges : List Exchange) (total bill : ℕ)
    → prices.methods ≡ []
    → bill ≤ total + requests_sum prices exchanges
    → bill ≤ u64_max
    → bill ≤ count_requests named_rate prices exchanges total
unfolding count_requests request_units saturating_add
count_requests-covers prices [] total bill e h k = omega (arith, h)
count_requests-covers prices (exchange ∷ exchanges) total bill e h k =
    let one = units_of-named prices (call_of exchange) e in
    count_requests-covers prices exchanges _ bill e (ground (arith, one, h, k)) k

settle_bill-bound :
    (bill : Billable) (key : Option Str) (ledger : Ledger)
    → ledger.total ≤ u64_max
    → (settle_bill bill key ledger).total ≤ u64_max
unfolding settle_bill saturating_add
settle_bill-bound bill none ledger h = ground arith
settle_bill-bound bill (some key) ledger h = elim (Bool-cases (Sets.contains key ledger.settled)) [
  | inl held ↦ rw held h
  | inr fresh ↦ rw fresh (ground arith)
]

settle_charge-bound :
    (charge : Charge) (ledger : Ledger)
    → ledger.total ≤ u64_max
    → (settle_charge charge ledger).total ≤ u64_max
unfolding settle_charge
settle_charge-bound (free reason) ledger h = h
settle_charge-bound (billable bill) ledger h = settle_bill-bound bill bill.idempotency_key ledger h

meter_exchanges-bound :
    (prices : PriceBook) (exchanges : List Exchange) (ledger : Ledger)
    → ledger.total ≤ u64_max
    → (meter_exchanges prices exchanges ledger).total ≤ u64_max
unfolding meter_exchanges meter_response
meter_exchanges-bound prices [] ledger h = h
meter_exchanges-bound prices (exchange ∷ exchanges) ledger h =
    meter_exchanges-bound prices exchanges _ (settle_charge-bound _ _ h)

-- Charging for delivered work never costs more than counting requests at the price of what each
-- names: whatever the exchanges of a scenario and its prices, the bill of the meter of delivered work
-- is at most the bill of the request counter.
pub terminal_delivery_le :
    (scenario : Scenario) → terminal_delivery scenario ≤ request_counter named_rate scenario
unfolding terminal_delivery request_counter
terminal_delivery_le scenario =
    let prices = price_book scenario in
    let after = meter_exchanges prices scenario.exchanges empty_ledger in
    count_requests-covers prices scenario.exchanges 0 after.total (price_book-methods scenario)
      (omega (arith, owing-exchanges prices scenario.exchanges empty_ledger))
      (meter_exchanges-bound prices scenario.exchanges empty_ledger (omega arith))
