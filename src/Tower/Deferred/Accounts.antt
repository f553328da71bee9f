-- ===== src/Tower/Deferred/Accounts.antt =====
-- Every parked completion runs, waits, or is counted as dropped.
use mcp_usage_kit.Prelude.{
  List, Option, [], arith, false, get_elem?, if◌then◌else◌, inl, inr, is_some, length,
  length-append, none, refl, saturating_add, some, subst, suc, u64_max, zero, ℕ, ◌+◌, ◌<◌, ◌∷◌, ◌≡◌,
  ◌≤◌, ◌⊎◌,
}
use mcp_usage_kit.Tower.Deferred.{
  DeferredCompletions, Landing, land, make_room, new_queue, panicked, park, pop_newest, pop_oldest,
  push_back, ran, record_drop, requeue_in_flight, take_one, was_cancelled,
}

-- The queue with the completions that drains have taken and still await.
pub record Accounting (A : Type 0) : Type 0 where
  pub deferred : DeferredCompletions A
  pub in_flight : List A

pub data Move (A : Type 0) : Type 0 where
  parks : A → Move A
  takes : Move A
  lands : ℕ → Landing → Move A

module _ {A : Type 0} where
  abbrev pub new_accounting : ℕ → Accounting A
  new_accounting capacity = record { deferred = new_queue capacity; in_flight = [] }

  unfoldable pub with_flight : Option A → List A → List A
  with_flight none in_flight = in_flight
  with_flight (some completion) in_flight = completion ∷ in_flight

  unfoldable pub without_flight : ℕ → List A → List A
  without_flight i [] = []
  without_flight zero (completion ∷ in_flight) = in_flight
  without_flight (suc i) (completion ∷ in_flight) = completion ∷ without_flight i in_flight

  unfoldable pub landed : Landing → Option A → DeferredCompletions A → DeferredCompletions A
  landed landing none deferred = deferred
  landed landing (some completion) deferred = land landing completion deferred

  unfoldable pub move : Accounting A → Move A → Accounting A
  move accounting (parks completion) = record accounting {
    deferred = (park completion accounting.deferred).1;
  }
  move accounting takes =
      let taken = take_one accounting.deferred in
      record { deferred = taken.1; in_flight = with_flight taken.0 accounting.in_flight }
  move accounting (lands i landing) = record {
    deferred = landed landing (get_elem? accounting.in_flight i) accounting.deferred;
    in_flight = without_flight i accounting.in_flight;
  }

  unfoldable pub moves : Accounting A → List (Move A) → Accounting A
  moves accounting [] = accounting
  moves accounting (m ∷ ms) = moves (move accounting m) ms

  abbrev parked_by : Move A → ℕ
  parked_by (parks completion) = 1
  parked_by takes = 0
  parked_by (lands i landing) = 0

  unfoldable pub total_parked : List (Move A) → ℕ
  total_parked [] = 0
  total_parked (m ∷ ms) = parked_by m + total_parked ms

  unfoldable pub ran_of : Landing → Option A → ℕ
  ran_of ran (some completion) = 1
  ran_of _ _ = 0

  abbrev ran_by : Accounting A → Move A → ℕ
  ran_by accounting (lands i landing) = ran_of landing (get_elem? accounting.in_flight i)
  ran_by accounting (parks completion) = 0
  ran_by accounting takes = 0

  -- The completions in flight that ran to their end.
  unfoldable pub total_ran : Accounting A → List (Move A) → ℕ
  total_ran accounting [] = 0
  total_ran accounting (m ∷ ms) = ran_by accounting m + total_ran (move accounting m) ms

  abbrev waiting : Accounting A → ℕ
  waiting accounting =
      accounting.deferred.dropped + length accounting.deferred.queue + length accounting.in_flight

  make_room-spare :
      (capacity : ℕ) (queue : List A)
      → length queue < capacity
      → make_room capacity queue ≡ (false, queue)
  unfolding make_room
  make_room-spare capacity [] w = refl
  make_room-spare capacity (x ∷ queue) w = ground arith

  Queue-cases : (queue : List A) → (queue ≡ []) ⊎ ((x : A) × (xs : List A) × (queue ≡ x ∷ xs))
  Queue-cases [] = inl refl
  Queue-cases (x ∷ xs) = inr (x, xs, refl)

  -- A full queue that is within its capacity loses exactly its oldest.
  park_counts :
      (completion : A) (deferred : DeferredCompletions A)
      → length deferred.queue ≤ deferred.capacity
      → deferred.dropped < u64_max
      → let after = (park completion deferred).1 in
        (length after.queue ≤ after.capacity)
        × (after.capacity ≡ deferred.capacity)
        × (after.dropped + length after.queue ≡ suc (deferred.dropped + length deferred.queue))
  unfolding park push_back make_room record_drop saturating_add
  park_counts completion deferred w d = elim (Queue-cases deferred.queue) [
    | inl e ↦ rw e (ground arith)
    | inr (oldest, queue, e) ↦
        let shorter : suc (length queue) ≤ deferred.capacity =
          subst (λ q. length q ≤ deferred.capacity) e w in
        ground (
          arith,
          make_room-spare deferred.capacity queue (omega (arith, shorter)),
          length-append queue (completion ∷ []),
          length-append (oldest ∷ queue) (completion ∷ []),
        )
  ]

  length-pop_newest : (x : A) (queue : List A) → length (pop_newest (x ∷ queue)) ≡ length queue
  unfolding pop_newest
  length-pop_newest x [] = refl
  length-pop_newest x (y ∷ queue) = omega (arith, length-pop_newest y queue)

  requeue_counts :
      (completion : A) (deferred : DeferredCompletions A)
      → length deferred.queue ≤ deferred.capacity
      → deferred.dropped < u64_max
      → let after = requeue_in_flight completion deferred in
        (length after.queue ≤ after.capacity)
        × (after.capacity ≡ deferred.capacity)
        × (after.dropped + length after.queue ≡ suc (deferred.dropped + length deferred.queue))
  unfolding requeue_in_flight record_drop saturating_add
  requeue_counts completion deferred w d = elim (Queue-cases deferred.queue) [
    | inl e ↦ rw e (ground arith)
    | inr (newest, queue, e) ↦
        let shorter : suc (length queue) ≤ deferred.capacity =
          subst (λ q. length q ≤ deferred.capacity) e w in
        ground (arith, length-pop_newest newest queue)
  ]

  landed_counts :
      (landing : Landing) (flight : Option A) (deferred : DeferredCompletions A)
      → length deferred.queue ≤ deferred.capacity
      → deferred.dropped < u64_max
      → let after = landed landing flight deferred in
        (length after.queue ≤ after.capacity)
        × (after.capacity ≡ deferred.capacity)
        × (after.dropped + length after.queue + ran_of landing flight
            ≡ deferred.dropped + length deferred.queue + (if is_some flight then 1 else 0))
  unfolding landed land ran_of record_drop saturating_add
  landed_counts ran none deferred w d = (w, refl, omega arith)
  landed_counts was_cancelled none deferred w d = (w, refl, omega arith)
  landed_counts panicked none deferred w d = (w, refl, omega arith)
  landed_counts ran (some completion) deferred w d = (w, refl, omega arith)
  landed_counts was_cancelled (some completion) deferred w d =
      ground (arith, requeue_counts completion deferred w d)
  landed_counts panicked (some completion) deferred w d = ground arith

  length-without_flight :
      (i : ℕ) (in_flight : List A)
      → length (without_flight i in_flight) + (if is_some (get_elem? in_flight i) then 1 else 0)
        ≡ length in_flight
  unfolding without_flight
  length-without_flight i [] = refl
  length-without_flight zero (x ∷ in_flight) = omega arith
  length-without_flight (suc i) (x ∷ in_flight) = omega (arith, length-without_flight i in_flight)

  take_counts :
      (accounting : Accounting A)
      → let after = move accounting takes in
        (length after.deferred.queue ≤ length accounting.deferred.queue)
        × (after.deferred.capacity ≡ accounting.deferred.capacity)
        × (waiting after ≡ waiting accounting)
  unfolding move take_one pop_oldest with_flight
  take_counts accounting = elim (Queue-cases accounting.deferred.queue) [
    | inl e ↦ rw e (ground arith)
    | inr (oldest, queue, e) ↦ rw e (ground arith)
  ]

  move_counts :
      (accounting : Accounting A) (m : Move A)
      → length accounting.deferred.queue ≤ accounting.deferred.capacity
      → accounting.deferred.dropped < u64_max
      → let after = move accounting m in
        (length after.deferred.queue ≤ after.deferred.capacity)
        × (after.deferred.capacity ≡ accounting.deferred.capacity)
        × (waiting after + ran_by accounting m ≡ waiting accounting + parked_by m)
  move_counts accounting (parks completion) w d =
      unfold move in ground (arith, park_counts completion accounting.deferred w d)
  move_counts accounting takes w d = ground (arith, take_counts accounting)
  move_counts accounting (lands i landing) w d =
      unfold move in
      ground (
        arith,
        landed_counts landing (get_elem? accounting.in_flight i) accounting.deferred w d,
        length-without_flight i accounting.in_flight,
      )

  moves_count :
      (accounting : Accounting A) (ms : List (Move A))
      → length accounting.deferred.queue ≤ accounting.deferred.capacity
      → waiting accounting + total_parked ms < u64_max
      → let after = moves accounting ms in
        (length after.deferred.queue ≤ accounting.deferred.capacity)
        × (waiting after + total_ran accounting ms ≡ waiting accounting + total_parked ms)
  unfolding moves total_parked total_ran
  moves_count accounting [] w b = (w, refl)
  moves_count accounting (m ∷ ms) w b =
      let (w', c, counts) = move_counts accounting m w (omega arith) in
      let (bound, counts') = moves_count (move accounting m) ms w' (omega (arith, counts)) in
      (omega (arith, bound, c), omega (arith, counts, counts'))

  -- In any history of a new queue, whichever drains run at once and however they end, the queue
  -- stays within its capacity, and every parked completion has run, is in flight, waits in the
  -- queue, or is counted as dropped, as long as fewer than 2 ^ 64 - 1 are parked.
  pub parked_accounted :
      (capacity : ℕ) (ms : List (Move A))
      → total_parked ms < u64_max
      → let after = moves (new_accounting capacity) ms in
        (length after.deferred.queue ≤ capacity)
        × (total_ran (new_accounting capacity) ms
              + after.deferred.dropped
              + length after.deferred.queue
              + length after.in_flight
            ≡ total_parked ms)
  parked_accounted capacity ms b =
      ground (arith, moves_count (new_accounting capacity) ms (omega arith) (omega (arith, b)))
