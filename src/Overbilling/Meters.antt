-- ===== src/Overbilling/Meters.antt =====
-- crates/mcp-overbilling/src/meters.rs: a counter of requests, and the meter of delivered work. Maps
-- are association lists.
pub mod Fair
pub mod Cheaper
pub mod Bill
mod Tests
use mcp_usage_kit.Core.Method
use mcp_usage_kit.Core.Peek
use mcp_usage_kit.Core.Price
use mcp_usage_kit.Prelude.Assoc
use mcp_usage_kit.Prelude.Sets
use mcp_usage_kit.Core.Charge.{
  Billable, Call, Charge, billable, decide_with_task_origin, free, is_task_result,
}
use mcp_usage_kit.Core.Json.{Value}
use mcp_usage_kit.Core.Method.{Method}
use mcp_usage_kit.Core.Peek.{ResponsePeek}
use mcp_usage_kit.Core.Price.{PriceBook}
use mcp_usage_kit.Prelude.{
  List, Option, Str, [], if◌then◌else◌, is_some, none, saturating_add, some, str_equal, strs_equal,
  ℕ, ◌>>=◌, ◌∷◌,
}

pub record Exchange : Type 0 where
  pub method : Str
  pub name : Option Str
  pub response : Value

-- The fields of a scenario that a meter reads.
pub record Scenario : Type 0 where
  pub flat_units : ℕ
  pub named_units : List (Str × ℕ)
  pub exchanges : List Exchange

pub data RequestPricing : Type 0 where
  flat_rate named_rate : RequestPricing

unfoldable pub with_names : List (Str × ℕ) → PriceBook → PriceBook
with_names [] prices = prices
with_names ((name, units) ∷ named) prices = with_names named (Price.with_name prices name units)

unfoldable pub price_book : Scenario → PriceBook
price_book scenario = with_names scenario.named_units (Price.flat scenario.flat_units)

unfoldable pub named_price : PriceBook → Option Str → ℕ
named_price prices name = elim (name >>= λ n. Assoc.lookup n prices.names) [
  | none ↦ prices.default_units
  | some units ↦ units
]

unfoldable pub request_units : RequestPricing → PriceBook → Exchange → ℕ
request_units flat_rate prices exchange = prices.default_units
request_units named_rate prices exchange = named_price prices exchange.name

unfoldable pub count_requests : RequestPricing → PriceBook → List Exchange → ℕ → ℕ
count_requests pricing prices [] total = total
count_requests pricing prices (exchange ∷ exchanges) total =
    count_requests pricing prices exchanges
      (saturating_add total (request_units pricing prices exchange))

-- `RequestCounter::bill`.
unfoldable pub request_counter : RequestPricing → Scenario → ℕ
request_counter pricing scenario = count_requests pricing (price_book scenario) scenario.exchanges 0

-- What the meter of delivered work keeps.
pub record Ledger : Type 0 where
  pub task_origins : List (Str × Call)
  pub settled : List Str
  pub total : ℕ

-- `entry(id).or_insert_with(call)`.
unfoldable pub or_insert : Option Str → Call → List (Str × Call) → List (Str × Call)
or_insert none call origins = origins
or_insert (some id) call origins =
    if is_some (Assoc.lookup id origins) then origins else (id, call) ∷ origins

unfoldable pub settle_bill : Billable → Option Str → Ledger → Ledger
settle_bill bill none ledger = record ledger { total = saturating_add ledger.total bill.units }
settle_bill bill (some key) ledger =
    if Sets.contains key ledger.settled then ledger else record ledger {
      settled = key ∷ ledger.settled;
      total = saturating_add ledger.total bill.units;
    }

unfoldable pub settle_charge : Charge → Ledger → Ledger
settle_charge (free reason) ledger = ledger
settle_charge (billable bill) ledger = settle_bill bill bill.idempotency_key ledger

abbrev pub call_of : Exchange → Call
call_of exchange = record { method = Method.parse exchange.method; name = exchange.name }

abbrev pub task_id_of : ResponsePeek → Option Str
task_id_of response = response.task >>= λ task. task.task_id

-- A response that accepts a task records what commissioned it.
unfoldable pub commission : Call → ResponsePeek → List (Str × Call) → List (Str × Call)
commission call response origins =
    if is_task_result response.result_type
    then or_insert (task_id_of response) call origins
    else origins

unfoldable pub meter_response : PriceBook → Call → ResponsePeek → Ledger → Ledger
meter_response prices call response ledger =
    let origins = commission call response ledger.task_origins in
    settle_charge
      (decide_with_task_origin call response prices
        (task_id_of response >>= λ id. Assoc.lookup id origins))
      (record ledger { task_origins = origins })

unfoldable pub meter_exchanges : PriceBook → List Exchange → Ledger → Ledger
meter_exchanges prices [] ledger = ledger
meter_exchanges prices (exchange ∷ exchanges) ledger =
    meter_exchanges prices exchanges
      (meter_response prices (call_of exchange) (Peek.response exchange.response) ledger)

abbrev pub empty_ledger : Ledger
empty_ledger = record { task_origins = []; settled = []; total = 0 }

-- `TerminalDelivery::bill`.
unfoldable pub terminal_delivery : Scenario → ℕ
terminal_delivery scenario =
    (meter_exchanges (price_book scenario) scenario.exchanges empty_ledger).total
