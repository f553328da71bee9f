-- ===== src/Prelude/Entries.antt =====
-- What holds of every entry of a map stays so under its operations.
use mathlib.Core.Logic.{inl, inr}
use mathlib.Core.Path.{◌≡◌, refl, subst, sym}
use mathlib.Core.Bool.{Bool, true}
use mathlib.Core.Option.{none, some}
use mathlib.Core.List.{List, [], ◌∷◌}
use native.Mathlib.Omega.{arith}
use mcp_usage_kit.Prelude.Assoc.{Unique, insert, lookup, remove}
use mcp_usage_kit.Prelude.Keys.{Equal}
use mcp_usage_kit.Prelude.Lists.{All, retain}
use mcp_usage_kit.Prelude.Tests.{Bool-cases, if◌then◌else◌, ◌>>=◌}

module _ {ℓ κ μ} {K : Type ℓ} {V : Type κ} ⦃e : Equal K⦄ (P : K × V → Type μ) where
  pub All-retain : (p : K × V → Bool) (m : List (K × V)) → All P m → All P (retain p m)
  unfolding retain
  All-retain p [] a = tt
  All-retain p (x ∷ m) a = ground (arith, All-retain p m a.1, a.0)

  pub All-remove : (k : K) (m : List (K × V)) → All P m → All P (remove k m)
  unfolding remove
  All-remove k [] a = tt
  All-remove k ((j, v) ∷ m) a = ground (arith, All-remove k m a.1, a.0)

  pub All-insert : (k : K) (v : V) (m : List (K × V)) → P (k, v) → All P m → All P (insert k v m)
  unfolding insert
  All-insert k v [] p a = (p, tt)
  All-insert k v ((j, w) ∷ m) p a = ground (arith, All-insert k v m p a.1, p, a.0, a.1)

  pub All-lookup : (k : K) (v : V) (m : List (K × V)) → All P m → lookup k m ≡ some v → P (k, v)
  unfolding lookup
  All-lookup k v [] a h = absurd (ground arith)
  All-lookup k v ((j, w) ∷ m) a h = elim (Bool-cases (e.beq j k)) [
    | inl t ↦ subst P (ground (arith, e.beq_iff j k)) a.0
    | inr t ↦ All-lookup k v m a.1 (ground arith)
  ]

-- A map whose keys are unique, after entries are dropped by a test.
module _ {ℓ κ} {K : Type ℓ} {V : Type κ} ⦃e : Equal K⦄ (p : K × V → Bool) where
  pub lookup-retain-none :
      (k : K) (m : List (K × V)) → lookup k m ≡ none → lookup k (retain p m) ≡ none
  unfolding lookup retain
  lookup-retain-none k [] h = refl
  lookup-retain-none k ((j, v) ∷ m) h = ground (arith, lookup-retain-none k m)

  pub lookup-retain :
      (k : K) (m : List (K × V))
      → Unique m
      → lookup k (retain p m) ≡ (lookup k m >>= λ v. if p (k, v) then some v else none)
  unfolding lookup retain
  lookup-retain k [] u = refl
  lookup-retain k ((j, v) ∷ m) u = elim (Bool-cases (e.beq j k)) [
    | inl same ↦
        let eq : j ≡ k = (e.beq_iff j k).0 same in
        let gone : lookup k m ≡ none = subst (λ i. lookup i m ≡ none) eq u.0 in
        let back : e.beq k k ≡ true = (e.beq_iff k k).1 refl in
        subst
          (λ i. lookup k (if p (i, v) then (i, v) ∷ retain p m else retain p m) ≡ (
            (if e.beq i k then some v else lookup k m) >>= λ w. if p (k, w) then some w else none))
          (sym eq) (ground (arith, back, lookup-retain-none k m gone))
    | inr other ↦ ground (arith, other, lookup-retain k m u.1)
  ]

  pub Unique-retain : (m : List (K × V)) → Unique m → Unique (retain p m)
  unfolding retain
  Unique-retain [] u = tt
  Unique-retain ((j, v) ∷ m) u = ground (arith, Unique-retain m u.1, lookup-retain-none j m u.0)
