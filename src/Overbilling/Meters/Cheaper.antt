-- ===== src/Overbilling/Meters/Cheaper.antt =====
-- crates/mcp-overbilling/src/meters.rs: the meter of delivered work against the counter of requests.
use mcp_usage_kit.Core.Peek
use mcp_usage_kit.Prelude.Assoc
use mcp_usage_kit.Prelude.Sets
use mcp_usage_kit.Core.Charge.{
  Billable, Call, Charge, billable, decide_with_task_origin, free, is_task_result,
}
use mcp_usage_kit.Core.Peek.{ResponsePeek}
use mcp_usage_kit.Core.Price.{PriceBook}
use mcp_usage_kit.Overbilling.Meters.{
  Exchange, Ledger, call_of, commission, meter_exchanges, meter_response, or_insert, settle_bill,
  settle_charge, task_id_of,
}
use mcp_usage_kit.Overbilling.Meters.Fair.{Fair, decide-Fair, units_of}
use mcp_usage_kit.Prelude.{
  Bool-cases, List, Option, Str, [], ap, arith, false, if◌then◌else◌, inl, inr, none, refl,
  saturating_add, some, str_eq, str_eq_iff, str_equal, strs_equal, subst, sym, true, u64_max, ℕ,
  ◌+◌, ◌>>=◌, ◌∙◌, ◌∷◌, ◌≡◌, ◌≤◌,
}

-- What is still to be charged: the tasks that are commissioned and not settled.
abbrev pub outstanding : PriceBook → List Str → List (Str × Call) → ℕ
outstanding prices settled [] = 0
outstanding prices settled ((id, call) ∷ origins) =
    (if Sets.contains id settled then 0 else units_of prices call)
    + outstanding prices settled origins

outstanding-settle_le :
    (prices : PriceBook) (settled : List Str) (key : Str) (origins : List (Str × Call))
    → outstanding prices (key ∷ settled) origins ≤ outstanding prices settled origins
unfolding Sets.contains
outstanding-settle_le prices settled key [] = omega arith
outstanding-settle_le prices settled key ((id, call) ∷ origins) =
    ground (arith, outstanding-settle_le prices settled key origins)

-- Settling a commissioned task takes its units.
outstanding-settle :
    (prices : PriceBook) (settled : List Str) (key : Str) (origin : Call)
    (origins : List (Str × Call))
    → Assoc.lookup key origins ≡ some origin
    → Sets.contains key settled ≡ false
    → outstanding prices (key ∷ settled) origins + units_of prices origin
      ≤ outstanding prices settled origins
unfolding Sets.contains Assoc.lookup
outstanding-settle prices settled key origin [] e fresh = absurd cc
outstanding-settle prices settled key origin ((id, call) ∷ origins) e fresh =
    elim (Bool-cases (str_eq id key)) [
      | inl same ↦
          let one : id ≡ key = (str_eq_iff id key).0 same in
          let hit : call ≡ origin = grind arith in
          let taken : str_eq key id ≡ true = (str_eq_iff key id).1 (sym one) in
          let owed : Sets.contains id settled ≡ false =
            subst (λ (k : Str). Sets.contains k settled ≡ false) (sym one) fresh in
          ground (
            arith,
            taken,
            owed,
            ap (units_of prices) hit,
            outstanding-settle_le prices settled key origins,
          )
      | inr apart ↦
          let later : Assoc.lookup key origins ≡ some origin = grind arith in
          let other_key : str_eq key id ≡ false =
            ground (arith, apart, str_eq_iff key id, str_eq_iff id key) in
          ground
            (arith, other_key, outstanding-settle prices settled key origin origins later fresh)
    ]

outstanding-or_insert :
    (prices : PriceBook) (settled : List Str) (id : Option Str) (call : Call)
    (origins : List (Str × Call))
    → outstanding prices settled (or_insert id call origins)
      ≤ outstanding prices settled origins + units_of prices call
unfolding or_insert
outstanding-or_insert prices settled none call origins = omega arith
outstanding-or_insert prices settled (some id) call origins = ground arith

saturating_add-le : (a b : ℕ) → saturating_add a b ≤ a + b
unfolding saturating_add
saturating_add-le a b = ground arith

saturating_add-bound : (a b : ℕ) → a ≤ u64_max → saturating_add a b ≤ u64_max
unfolding saturating_add
saturating_add-bound a b h = ground arith

abbrev pub owing : PriceBook → Ledger → ℕ
owing prices ledger = ledger.total + outstanding prices ledger.settled ledger.task_origins

owing-keyed :
    (prices : PriceBook) (bill : Billable) (ledger : Ledger) (key : Str) (commissioned : Call)
    → Assoc.lookup key ledger.task_origins ≡ some commissioned
    → bill.units ≡ units_of prices commissioned
    → owing prices (settle_bill bill (some key) ledger) ≤ owing prices ledger
unfolding settle_bill
owing-keyed prices bill ledger key commissioned e u =
    elim (Bool-cases (Sets.contains key ledger.settled)) [
      | inl held ↦ rw held (omega arith)
      | inr fresh ↦ rw fresh (
          omega (
            arith,
            u,
            saturating_add-le ledger.total bill.units,
            outstanding-settle prices ledger.settled key commissioned ledger.task_origins e fresh,
          ))
    ]

owing-direct :
    (prices : PriceBook) (bill : Billable) (ledger : Ledger) (call : Call)
    → bill.units ≡ units_of prices call
    → owing prices (settle_bill bill none ledger) ≤ owing prices ledger + units_of prices call
unfolding settle_bill
owing-direct prices bill ledger call u = omega (arith, u, saturating_add-le ledger.total bill.units)

-- A fair charge is covered by what is outstanding, or by the call itself.
owing-charge :
    (prices : PriceBook) (call : Call) (response : ResponsePeek) (origin : Option Call)
    (charge : Charge) (ledger : Ledger)
    → Fair call response prices origin charge
    → origin ≡ (task_id_of response >>= λ id. Assoc.lookup id ledger.task_origins)
    → owing prices (settle_charge charge ledger)
      ≤ owing prices ledger
        + (if is_task_result response.result_type then 0 else units_of prices call)
unfolding settle_charge
owing-charge prices call response origin (free reason) ledger fair o = omega arith
owing-charge prices call response origin (billable bill) ledger (direct, inl (no_key, u)) o =
    subst
      (λ (key : Option Str).
        owing prices (settle_bill bill key ledger)
        ≤ owing prices ledger
          + (if is_task_result response.result_type then 0 else units_of prices call))
      (sym no_key) (rw direct (owing-direct prices bill ledger call u))
owing-charge prices call response origin (billable bill) ledger
      (direct, inr (commissioned, key, keyed, known, u, reported)) o =
    let found : Assoc.lookup key ledger.task_origins ≡ some commissioned =
      sym (ap (λ (id : Option Str). id >>= λ k. Assoc.lookup k ledger.task_origins) reported)
      ∙ sym o
      ∙ known in
    subst
      (λ (given : Option Str).
        owing prices (settle_bill bill given ledger)
        ≤ owing prices ledger
          + (if is_task_result response.result_type then 0 else units_of prices call))
      (sym keyed) (omega (arith, owing-keyed prices bill ledger key commissioned found u))

owing-commission :
    (prices : PriceBook) (call : Call) (response : ResponsePeek) (ledger : Ledger)
    → owing prices (record ledger { task_origins = commission call response ledger.task_origins })
        + (if is_task_result response.result_type then 0 else units_of prices call)
      ≤ owing prices ledger + units_of prices call
unfolding commission
owing-commission prices call response ledger =
    elim (Bool-cases (is_task_result response.result_type)) [
      | inl accepted ↦ rw accepted (
          omega (
            arith,
            outstanding-or_insert prices ledger.settled (task_id_of response) call
                ledger.task_origins,
          ))
      | inr other_result ↦ rw other_result (omega arith)
    ]

owing-response :
    (prices : PriceBook) (call : Call) (response : ResponsePeek) (ledger : Ledger)
    → owing prices (meter_response prices call response ledger)
      ≤ owing prices ledger + units_of prices call
unfolding meter_response
owing-response prices call response ledger =
    let origins = commission call response ledger.task_origins in
    let origin = task_id_of response >>= λ id. Assoc.lookup id origins in
    omega (
      arith,
      owing-commission prices call response ledger,
      owing-charge prices call response origin (decide_with_task_origin call response prices origin)
          (record ledger { task_origins = origins }) (decide-Fair call response prices origin) refl,
    )

-- What a request counter would add up, without a bound.
abbrev pub requests_sum : PriceBook → List Exchange → ℕ
requests_sum prices [] = 0
requests_sum prices (exchange ∷ exchanges) =
    units_of prices (call_of exchange) + requests_sum prices exchanges

pub owing-exchanges :
    (prices : PriceBook) (exchanges : List Exchange) (ledger : Ledger)
    → owing prices (meter_exchanges prices exchanges ledger)
      ≤ owing prices ledger + requests_sum prices exchanges
unfolding meter_exchanges
owing-exchanges prices [] ledger = omega arith
owing-exchanges prices (exchange ∷ exchanges) ledger =
    let response = Peek.response exchange.response in
    let next = meter_response prices (call_of exchange) response ledger in
    omega (
      arith,
      owing-exchanges prices exchanges next,
      owing-response prices (call_of exchange) response ledger,
    )
