-- ===== src/Core/Charge/Reasons.antt =====
-- The free reasons of charge.rs: `FreeReason::ALL`, `index` and `as_str` agree.
use mcp_usage_kit.Core.Charge.{FreeReason, all_reasons, discovery, reason_index, reason_str}
use mcp_usage_kit.Prelude.{arith, get_elem?, refl, some, suc, zero, ℕ, ◌≡◌}

-- The reason at a slot of the table is the reason that indexes that slot.
pub all_reasons-index : (r : FreeReason) → get_elem? all_reasons (reason_index r) ≡ some r
unfolding reason_index
all_reasons-index discovery = refl
all_reasons-index _ = refl

index_cases : (i : ℕ) (r : FreeReason) → get_elem? all_reasons i ≡ some r → reason_index r ≡ i
unfolding reason_index
index_cases zero r h = ground arith
index_cases (suc zero) r h = ground arith
index_cases (suc (suc zero)) r h = ground arith
index_cases (suc (suc (suc zero))) r h = ground arith
index_cases (suc (suc (suc (suc zero)))) r h = ground arith
index_cases (suc (suc (suc (suc (suc zero))))) r h = ground arith
index_cases (suc (suc (suc (suc (suc (suc zero)))))) r h = ground arith
index_cases (suc (suc (suc (suc (suc (suc (suc zero))))))) r h = ground arith
index_cases (suc (suc (suc (suc (suc (suc (suc (suc zero)))))))) r h = ground arith
index_cases (suc (suc (suc (suc (suc (suc (suc (suc (suc zero))))))))) r h = ground arith
index_cases (suc (suc (suc (suc (suc (suc (suc (suc (suc (suc i)))))))))) r h = ground arith

-- The table has no slot beyond those.
pub index-all_reasons :
    (i : ℕ) (r : FreeReason) → get_elem? all_reasons i ≡ some r → reason_index r ≡ i
unfolding reason_index
index-all_reasons i r h = index_cases i r h

-- No two reasons share a wire name.
pub reason_str_injective : (r s : FreeReason) → reason_str r ≡ reason_str s → r ≡ s
unfolding reason_str
reason_str_injective r s h = ground arith
