-- ===== src/Tower/Credential/Budget.antt =====
-- The budget for failed authentication within one window. A guess is refused in two steps, each under
-- the lock and with its own reading of the clock: the budget is checked, and the failure recorded. The
-- steps of other guesses may come between.
use mcp_usage_kit.Prelude.{
  All, Bool-cases, List, Option, [], ap, arith, false, inl, inr, leb, none, refl, saturating_add,
  some, suc, u64_max, zero, ℕ, ◌+◌, ◌-◌, ◌<◌, ◌∙◌, ◌∷◌, ◌≡◌, ◌≤◌,
}
use mcp_usage_kit.Tower.Credential.{
  AuthFailureLimit, Refusal, begin_refusal, charge_failure, end_refusal, expire_window,
  is_exhausted, too_many_failures, unauthenticated,
}

pub data Guess : Type 0 where
  checked recorded : ℕ → Guess

-- The budget, the guesses that are checked but not recorded, and those told that they are wrong.
pub record Guessing : Type 0 where
  pub limit : AuthFailureLimit
  pub in_flight : ℕ
  pub wrong : ℕ

abbrev is_wrong : Refusal → ℕ
is_wrong unauthenticated = 1
is_wrong too_many_failures = 0

unfoldable pub check_guess : Guessing → Option Refusal × AuthFailureLimit → Guessing
check_guess run (some refusal, limit) = record run {
  limit = limit;
  wrong = run.wrong + is_wrong refusal;
}
check_guess run (none, limit) = record run { limit = limit; in_flight = run.in_flight + 1 }

unfoldable pub record_guess : ℕ → Guessing → Refusal × AuthFailureLimit → Guessing
record_guess zero run answer = run
record_guess (suc others) run (refusal, limit) = record {
  limit = limit;
  in_flight = others;
  wrong = run.wrong + is_wrong refusal;
}

unfoldable pub guess_step : Guessing → Guess → Guessing
guess_step run (checked now) = check_guess run (begin_refusal now run.limit)
guess_step run (recorded now) = record_guess run.in_flight run (end_refusal now run.limit)

unfoldable pub guess_all : Guessing → List Guess → Guessing
guess_all run [] = run
guess_all run (guess ∷ guesses) = guess_all (guess_step run guess) guesses

-- Both steps read the clock before the window ends.
abbrev pub Within : AuthFailureLimit → Guess → Type 0
Within limit (checked now) = now < limit.started + limit.window
Within limit (recorded now) = now < limit.started + limit.window

-- Never more than so many guesses are in flight.
abbrev pub Crowd : ℕ → Guessing → List Guess → Type 0
Crowd k run [] = run.in_flight ≤ k
Crowd k run (guess ∷ guesses) = (run.in_flight ≤ k) × Crowd k (guess_step run guess) guesses

within_window :
    (now : ℕ) (limit : AuthFailureLimit)
    → 0 < limit.window
    → now < limit.started + limit.window
    → expire_window now limit ≡ limit
unfolding expire_window
within_window now limit p w =
    let current : leb limit.window (now - limit.started) ≡ false = ground arith in rw current refl

Crowd-now :
    (k : ℕ) (run : Guessing) (guesses : List Guess) → Crowd k run guesses → run.in_flight ≤ k
Crowd-now k run [] c = c
Crowd-now k run (guess ∷ guesses) c = c.0

module _ (limit : AuthFailureLimit) (k : ℕ) (lasts : 0 < limit.window)
    (small : limit.max_failures + k ≤ u64_max) (kept : limit.failures ≤ limit.max_failures) where
  -- The budget counts what was told to be wrong, and what is in flight came through it.
  record Counted (run : Guessing) : Type 0 where
    budget : run.limit ≡ record limit { failures = limit.failures + run.wrong }
    bounded : run.wrong + run.in_flight ≤ (limit.max_failures - limit.failures) + (k - 1)

  Counted-checked :
      (now : ℕ) (run : Guessing)
      → now < limit.started + limit.window
      → (guess_step run (checked now)).in_flight ≤ k
      → Counted run
      → Counted (guess_step run (checked now))
  unfolding guess_step check_guess begin_refusal is_exhausted
  Counted-checked now run w crowd c =
      let after : AuthFailureLimit = record limit { failures = limit.failures + run.wrong } in
      let same : expire_window now run.limit ≡ after =
        ap (expire_window now) c.budget ∙ within_window now after lasts w in
      elim (Bool-cases (leb limit.max_failures (limit.failures + run.wrong))) [
        | inl spent ↦
            rw (same, spent) (record { budget = ground arith; bounded = omega (arith, c.bounded) })
        | inr left ↦
            let crowded : run.in_flight + 1 ≤ k = rw (same, left) at crowd in
            rw (same, left) (record { budget = refl; bounded = ground (arith, crowded) })
      ]

  Counted-recorded :
      (now : ℕ) (run : Guessing)
      → now < limit.started + limit.window
      → Counted run
      → Counted (guess_step run (recorded now))
  unfolding guess_step record_guess end_refusal charge_failure
  Counted-recorded now run w c = step run.in_flight refl
    where
      step : (n : ℕ) → run.in_flight ≡ n → Counted (record_guess n run (end_refusal now run.limit))
      step zero e = c
      step (suc others) e =
          let after : AuthFailureLimit = record limit { failures = limit.failures + run.wrong } in
          let same : expire_window now run.limit ≡ after =
            ap (expire_window now) c.budget ∙ within_window now after lasts w in
          let counted : saturating_add (limit.failures + run.wrong) 1
              ≡ limit.failures + (run.wrong + 1) =
            unfold saturating_add in ground (arith, c.bounded) in
          rw (same, counted) (record { budget = refl; bounded = omega (arith, c.bounded, e) })

  Counted-guesses :
      (run : Guessing) (guesses : List Guess)
      → All (Within limit) guesses
      → Crowd k run guesses
      → Counted run
      → Counted (guess_all run guesses)
  unfolding guess_all
  Counted-guesses run [] a crowd c = c
  Counted-guesses run (checked now ∷ guesses) a crowd c =
      let next = Crowd-now k (guess_step run (checked now)) guesses crowd.1 in
      Counted-guesses (guess_step run (checked now)) guesses a.1 crowd.1
        (Counted-checked now run a.0 next c)
  Counted-guesses run (recorded now ∷ guesses) a crowd c =
      Counted-guesses (guess_step run (recorded now)) guesses a.1 crowd.1
        (Counted-recorded now run a.0 c)

-- For a limit with a window, whose budget is not overspent: of any guesses before its window ends,
-- whose two steps come in any order of theirs and with never more than k guesses between the two, no
-- more are told that they are wrong, or will be, than the budget has left and k - 1 more; so no more
-- than it has left where guesses come one after another. The budget and k fit in 64 bits together.
pub wrong_answers-bounded :
    (limit : AuthFailureLimit) (k : ℕ) (guesses : List Guess)
    → 0 < limit.window
    → limit.max_failures + k ≤ u64_max
    → limit.failures ≤ limit.max_failures
    → All (Within limit) guesses
    → Crowd k (record { limit = limit; in_flight = 0; wrong = 0 }) guesses
    → (guess_all (record { limit = limit; in_flight = 0; wrong = 0 }) guesses).wrong
        + (guess_all (record { limit = limit; in_flight = 0; wrong = 0 }) guesses).in_flight
      ≤ (limit.max_failures - limit.failures) + (k - 1)
wrong_answers-bounded limit k guesses lasts small kept a crowd =
    let none_yet : limit.failures ≡ limit.failures + 0 = omega arith in
    (Counted-guesses limit k lasts small kept (record { limit = limit; in_flight = 0; wrong = 0 })
      guesses a crowd
      (record {
        budget = ap (λ (n : ℕ). record limit { failures = n }) none_yet;
        bounded = omega arith;
      })).bounded
