-- ===== src/Edge/Payment/Taken.antt =====
-- Lists of waiting verifications, when one is taken out.
use mcp_usage_kit.Edge.Payment.History.{take_at}
use mcp_usage_kit.Edge.Payment.Verify.{Waiting}
use mcp_usage_kit.Prelude.{
  All, List, Option-cases, [], arith, inl, inr, some, subst, suc, sym, zero, ℕ, ◌∷◌, ◌≡◌, ◌≢◌,
}

pub All-both {ℓ κ μ ν} :
    {A : Type ℓ} (P : A → Type κ) (Q : A → Type μ) (R : A → Type ν) (xs : List A)
    → ((x : A) → P x → Q x → R x)
    → All P xs
    → All Q xs
    → All R xs
All-both P Q R [] f a b = tt
All-both P Q R (x ∷ xs) f a b = (f x a.0 b.0, All-both P Q R xs f a.1 b.1)

pub All-imp {ℓ κ ν} :
    {A : Type ℓ} (P : A → Type κ) (R : A → Type ν) (xs : List A)
    → ((x : A) → P x → R x)
    → All P xs
    → All R xs
All-imp P R xs f a = All-both P P R xs (λ x p q. f x p) a a

-- What holds of the waiting verifications holds of the one taken and of the rest.
pub All-take_at {ℓ κ} :
    {A : Type ℓ} (P : A → Type κ) (n : ℕ) (xs : List A) (x : A) (rest : List A)
    → take_at n xs ≡ some (x, rest)
    → All P xs
    → P x × All P rest
unfolding take_at
All-take_at P n [] x rest h a = absurd (cc)
All-take_at P zero (y ∷ xs) x rest h a =
    let e : y ≡ x = cc in let f : xs ≡ rest = cc in (subst P e a.0, subst (All P) f a.1)
All-take_at P (suc n) (y ∷ xs) x rest h a = elim (Option-cases (take_at n xs)) [
  | inl e ↦ absurd (ground (arith, e))
  | inr ((z, zs), e) ↦
      let both = All-take_at P n xs z zs e a.1 in
      let equal : z ≡ x = ground (arith, e) in
      let tail : y ∷ zs ≡ rest = ground (arith, e) in
      (subst P equal both.0, subst (All P) tail (a.0, both.1))
]

abbrev pub ApartFrom : List Waiting → Waiting → Type 0
ApartFrom ws w = All (λ v. v.reservation.key ≢ w.reservation.key) ws

abbrev pub Apart : List Waiting → Type 0
Apart [] = Unit
Apart (w ∷ ws) = ApartFrom ws w × Apart ws

pub Apart-take_at :
    (n : ℕ) (ws : List Waiting) (w : Waiting) (rest : List Waiting)
    → take_at n ws ≡ some (w, rest)
    → Apart ws
    → ApartFrom rest w × Apart rest
unfolding take_at
Apart-take_at n [] w rest h a = absurd (cc)
Apart-take_at zero (y ∷ ws) w rest h a =
    let e : y ≡ w = cc in
    let f : ws ≡ rest = cc in
    (subst (λ v. ApartFrom rest v) e (subst (λ vs. ApartFrom vs y) f a.0), subst Apart f a.1)
Apart-take_at (suc n) (y ∷ ws) w rest h a = elim (Option-cases (take_at n ws)) [
  | inl e ↦ absurd (ground (arith, e))
  | inr ((z, zs), e) ↦
      let both = Apart-take_at n ws z zs e a.1 in
      let first = All-take_at (λ v. v.reservation.key ≢ y.reservation.key) n ws z zs e a.0 in
      let equal : z ≡ w = ground (arith, e) in
      let tail : y ∷ zs ≡ rest = ground (arith, e) in
      (
        subst (λ v. ApartFrom rest v) equal
            (subst (λ vs. ApartFrom vs z) tail ((λ q. first.0 (sym q)), both.0)),
        subst Apart tail (first.1, both.1),
      )
]
