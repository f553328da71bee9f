-- ===== src/Prelude/Sets.antt =====
-- `HashSet` as a list that holds each element once.

use mathlib.Core.Path.{◌≡◌}
use mathlib.Core.Bool.{Bool, false, ◌||◌}
use mathlib.Core.List.{List, [], ◌∷◌}
use native.Mathlib.Omega.{arith}
use mcp_usage_kit.Prelude.Keys.{Equal}
use mcp_usage_kit.Prelude.Tests.{if◌then◌else◌}

module _ {ℓ} {K : Type ℓ} ⦃e : Equal K⦄ where
  unfoldable pub contains : K → List K → Bool
  contains k [] = false
  contains k (j ∷ s) = e.beq j k || contains k s

  unfoldable pub add : K → List K → List K
  add k s = if contains k s then s else k ∷ s

  unfoldable pub discard : K → List K → List K
  discard k [] = []
  discard k (j ∷ s) = let rest = discard k s in if e.beq j k then rest else j ∷ rest

  pub contains-add : (k j : K) (s : List K) → contains j (add k s) ≡ (e.beq k j || contains j s)
  unfolding contains add
  contains-add k j s = ground (arith, e.beq_iff k j)

  pub contains-discard :
      (k j : K) (s : List K)
      → contains j (discard k s) ≡ (if e.beq k j then false else contains j s)
  unfolding contains discard
  contains-discard k j [] = ground arith
  contains-discard k j (i ∷ s) =
      ground (arith, e.beq_iff k j, e.beq_iff i k, e.beq_iff i j, contains-discard k j s)
