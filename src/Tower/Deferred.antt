-- ===== src/Tower/Deferred.antt =====
-- crates/mcp-usage-tower/src/deferred.rs: terminal accounting that waits for somewhere to await. A
-- parked future is any value; a mutex makes each queue operation atomic.
pub mod Accounts
pub mod Drain
mod Tests
use mcp_usage_kit.Prelude.{
  Bool, List, Option, [], false, if◌then◌else◌, is_some, leb, length, max, none, saturating_add,
  some, suc, true, zero, ℕ, ◌++◌, ◌==◌, ◌∷◌,
}

pub record DeferredCompletions (A : Type 0) : Type 0 where
  pub queue : List A
  pub capacity : ℕ
  pub dropped : ℕ

-- How a completion in flight ends: it ran, its drain was cancelled, or it panicked.
pub data Landing : Type 0 where
  ran was_cancelled panicked : Landing

module _ {A : Type 0} where
  abbrev pub new_queue : ℕ → DeferredCompletions A
  new_queue capacity = record { queue = []; capacity = capacity; dropped = 0 }

  -- The compare-and-exchange loop adds one, up to the maximum.
  unfoldable pub record_drop : DeferredCompletions A → DeferredCompletions A
  record_drop deferred = record deferred { dropped = saturating_add deferred.dropped 1 }

  -- The loop that makes room in a full queue, and whether it dropped anything.
  unfoldable pub make_room : ℕ → List A → Bool × List A
  make_room capacity [] = (false, [])
  make_room capacity (oldest ∷ queue) =
      let rest = make_room capacity queue in
      if leb capacity (suc (length queue)) then (true, rest.1) else (false, oldest ∷ queue)

  unfoldable pub push_back :
      A → Bool × List A → DeferredCompletions A → Bool × DeferredCompletions A
  push_back completion (evicted, queue) deferred =
      let after = record deferred { queue = queue ++ completion ∷ [] } in
      if evicted then (false, record_drop after) else (true, after)

  unfoldable pub park : A → DeferredCompletions A → Bool × DeferredCompletions A
  park completion deferred =
      if deferred.capacity == 0
      then (false, record_drop deferred)
      else push_back completion (make_room deferred.capacity deferred.queue) deferred

  unfoldable pub pop_oldest : List A → Option A × List A
  pop_oldest [] = (none, [])
  pop_oldest (oldest ∷ queue) = (some oldest, queue)

  unfoldable pub take_one : DeferredCompletions A → Option A × DeferredCompletions A
  take_one deferred =
      let popped = pop_oldest deferred.queue in (popped.0, record deferred { queue = popped.1 })

  unfoldable pub pop_newest : List A → List A
  pop_newest [] = []
  pop_newest (completion ∷ []) = []
  pop_newest (completion ∷ next ∷ queue) = completion ∷ pop_newest (next ∷ queue)

  -- Back to the front, at the cost of the newest if the queue is full.
  unfoldable pub requeue_in_flight : A → DeferredCompletions A → DeferredCompletions A
  requeue_in_flight completion deferred =
      if deferred.capacity == 0
      then record_drop deferred
      else if leb deferred.capacity (length deferred.queue)
      then record_drop (record deferred { queue = completion ∷ pop_newest deferred.queue })
      else record deferred { queue = completion ∷ deferred.queue }

  unfoldable pub land : Landing → A → DeferredCompletions A → DeferredCompletions A
  land ran completion deferred = deferred
  land was_cancelled completion deferred = requeue_in_flight completion deferred
  land panicked completion deferred = record_drop deferred

  -- A drain whose completions run to their ends, with nothing parked meanwhile.
  unfoldable pub drain_some : ℕ → DeferredCompletions A → ℕ × DeferredCompletions A
  drain_some zero deferred = (0, deferred)
  drain_some (suc limit) deferred =
      let taken = take_one deferred in
      let rest = drain_some limit taken.1 in
      if is_some taken.0 then (suc rest.0, rest.1) else (0, taken.1)

  -- `drain` as a loop of so many rounds at most, `none` if it wants more.
  unfoldable pub drain : ℕ → ℕ → DeferredCompletions A → Option (ℕ × DeferredCompletions A)
  drain zero total deferred = none
  drain (suc rounds) total deferred =
      let passed = drain_some (max deferred.capacity 1) deferred in
      let rest = drain rounds (saturating_add total passed.0) passed.1 in
      if passed.0 == 0 then some (total, passed.1) else rest
