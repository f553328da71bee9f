-- ===== src/Export/Pipeline/Order.antt =====
-- Which batch a flush exports: turns of retries and fresh usage, and the completion of one batch.
use mcp_usage_kit.Prelude.Assoc
use mcp_usage_kit.Export.Buffer.{
  AggregateKey, AggregatedUsage, Batch, PendingAggregate, drain, is_empty, place, sort,
}
use mcp_usage_kit.Export.Pipeline.{Step, begins, finishes, records}
use mcp_usage_kit.Prelude.{
  List, Str, [], ap, arith, length, refl, str_equal, strs_equal, suc, ℕ, ◌∙◌, ◌∷◌, ◌≡◌,
}

length-place :
    (x : AggregatedUsage) (batched : Batch) → length (place x batched) ≡ suc (length batched)
unfolding place
length-place x [] = refl
length-place x (y ∷ ys) = ground (arith, length-place x ys)

length-sort : (batched : Batch) → length (sort batched) ≡ length batched
unfolding sort
length-sort [] = refl
length-sort (x ∷ xs) = omega (arith, length-place x (sort xs), length-sort xs)

length-drain :
    (uuids : ℕ → Str) (pending : List (AggregateKey × PendingAggregate))
    → length (drain uuids pending) ≡ length pending
unfolding drain
length-drain uuids [] = refl
length-drain uuids (entry ∷ pending) = ap suc (length-drain (λ i. uuids (suc i)) pending)

is_empty-length {ℓ κ} :
    {A : Type ℓ} {B : Type κ} (xs : List A) (ys : List B)
    → length xs ≡ length ys
    → is_empty xs ≡ is_empty ys
is_empty-length [] [] h = refl
is_empty-length [] (y ∷ ys) h = absurd (omega (arith, h))
is_empty-length (x ∷ xs) [] h = absurd (omega (arith, h))
is_empty-length (x ∷ xs) (y ∷ ys) h = refl

pub is_empty-drained :
    (uuids : ℕ → Str) (pending : List (AggregateKey × PendingAggregate))
    → is_empty (sort (drain uuids pending)) ≡ is_empty pending
is_empty-drained uuids pending =
    is_empty-length (sort (drain uuids pending)) pending
      (length-sort (drain uuids pending) ∙ length-drain uuids pending)

-- A step that begins no flush.
abbrev pub Continues : Step → Type 0
Continues (begins uuids) = ⊥
Continues (records event) = Unit
Continues (finishes ending) = Unit
