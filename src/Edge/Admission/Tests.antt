-- ===== src/Edge/Admission/Tests.antt =====
-- A tenant at and over its quota.
use mcp_usage_kit.Core.Method
use mcp_usage_kit.Core.Price
use mcp_usage_kit.Prelude.Assoc
use mcp_usage_kit.Core.Charge.{Call}
use mcp_usage_kit.Core.Limits.{Usage, assess_limits, is_allowed}
use mcp_usage_kit.Core.Method.{Method}
use mcp_usage_kit.Edge.Admission.{
  Payments, Plane, Priced, decide_payment, gate, minor_units, price_for, price_of, verified,
}
use mcp_usage_kit.Edge.Admission.Gate.{gate-over_quota}
use mcp_usage_kit.Edge.Admission.Minor.{minor_units-covers}
use mcp_usage_kit.Prelude.{
  Str, [], checked_mul, inr, none, refl, some, str, str_equal, strs_equal, true, u64_max, ℕ, ◌*◌,
  ◌+◌, ◌<◌, ◌↔◌, ◌≡◌, ◌≤◌,
}
use mcp_usage_kit.Tower.Completion.{Tenant}

abbrev acme : Tenant
acme = record {
  id = str "acme";
  billing_customer_id = str "cus_1";
  prices = record { default_units = 2; names = []; methods = [] };
}

abbrev spent : Usage
spent = record { units = 8; spend_micros = 800 }

abbrev report : Call
report = record { method = Method.tools_call; name = some (str "report") }

abbrev over : Plane
over = record {
  tenant = some acme;
  quota = some (spent, 100, record { max_units = some 5; max_spend_micros = none });
}

abbrev within : Plane
within = record {
  tenant = some acme;
  quota = some (spent, 100, record { max_units = some 10; max_spend_micros = none });
}

abbrev accepting : Payments
accepting = record { presented = true; verify = λ priced. inr (str "receipt") }

gate-over_quota_example :
    (method : Payments) × (priced : Priced) × (text : Str) × (some accepting ≡ some method)
    × (method.presented ≡ true)
    × (price_of over report ≡ some priced)
    × (method.verify priced ≡ inr text)
    × (some (str "receipt") ≡ some text)
gate-over_quota_example =
    gate-over_quota over (some accepting) report spent 100
      (record { max_units = some 5; max_spend_micros = none }) (some (str "receipt"))
      (unfold Method.delivers_priced_work in refl) refl (unfold assess_limits is_allowed in refl)
      (unfold gate verified price_of price_for minor_units checked_mul Price.units_for
          Method.delivers_priced_work decide_payment Assoc.lookup in
        refl)

minor_units-covers_example :
    ((minor_units 3 5000 ≡ none) ↔ (u64_max < 3 * 5000))
    × ((amount : ℕ)
        → minor_units 3 5000 ≡ some amount
        → (3 * 5000 ≤ amount * 10000) × (amount * 10000 < 3 * 5000 + 10000))
minor_units-covers_example = minor_units-covers 3 5000
