-- ===== src/Export/MeterEvent/Letters.antt =====
-- The dead letters: bounded, each event once, and counted when they are dropped.
use mcp_usage_kit.Prelude.Sets
use mcp_usage_kit.Export.Buffer.{AggregatedUsage}
use mcp_usage_kit.Export.MeterEvent.{
  ExporterState, MeterEventDeadLetter, MeterEventDeadLetterReason, MeterEventExporter,
  append_letter, evict, quarantine_locked, with_dead_letter_capacity,
}
use mcp_usage_kit.Prelude.{
  Bool, Bool-cases, List, Str, [], arith, false, if◌then◌else◌, inl, inr, leb, length,
  length-append, ltb, refl, saturating_add, str_eq, str_eq_iff, str_equal, strs_equal, suc, sym,
  u64_max, ℕ, ◌++◌, ◌+◌, ◌<◌, ◌==◌, ◌||◌, ◌∙◌, ◌∷◌, ◌≡◌, ◌≤◌, ◌⊎◌,
}

-- Whether an identifier has a letter.
abbrev pub listed : Str → List MeterEventDeadLetter → Bool
listed id [] = false
listed id (letter ∷ letters) = str_eq letter.aggregate.identifier id || listed id letters

abbrev OneEach : List MeterEventDeadLetter → Type 0
OneEach [] = Unit
OneEach (letter ∷ letters) = (listed letter.aggregate.identifier letters ≡ false) × OneEach letters

-- The identifiers are those of the letters, each event has one letter, and there are at most
-- `capacity` of them.
pub record IsKept (capacity : ℕ) (state : ExporterState) : Type 0 where
  pub agrees :
      (id : Str) → Sets.contains id state.dead_letter_identifiers ≡ listed id state.dead_letters
  pub one_each : OneEach state.dead_letters
  pub bounded : length state.dead_letters ≤ capacity

evict_keeps :
    (full : ℕ → Bool) (letters : List MeterEventDeadLetter) (state : ExporterState)
    → ((id : Str) → Sets.contains id state.dead_letter_identifiers ≡ listed id letters)
    → OneEach letters
    → let after = evict full letters state in
      ((id : Str) → Sets.contains id after.dead_letter_identifiers ≡ listed id after.dead_letters)
      × OneEach after.dead_letters
unfolding evict
evict_keeps full [] state a o = (a, tt)
evict_keeps full (letter ∷ letters) state a o =
    let fewer = record state {
      dead_letter_identifiers =
          Sets.discard letter.aggregate.identifier state.dead_letter_identifiers;
      dropped_dead_letters = saturating_add state.dropped_dead_letters 1;
    } in
    let discarded : (id : Str)
        → Sets.contains id fewer.dead_letter_identifiers ≡ listed id letters =
      λ id. ground (
        arith,
        a id,
        Sets.contains-discard letter.aggregate.identifier id state.dead_letter_identifiers,
        str_eq_iff letter.aggregate.identifier id,
      ) in
    elim (Bool-cases (full (suc (length letters)))) [
      | inl e ↦ rw e (evict_keeps full letters fewer discarded o.1)
      | inr e ↦ rw e (a, o)
    ]

-- The loop stops at a number that does not pass the test, or with no letter left.
evict_stops :
    (full : ℕ → Bool) (letters : List MeterEventDeadLetter) (state : ExporterState)
    → (length (evict full letters state).dead_letters ≡ 0)
      ⊎ (full (length (evict full letters state).dead_letters) ≡ false)
unfolding evict
evict_stops full [] state = inl refl
evict_stops full (letter ∷ letters) state =
    let fewer = record state {
      dead_letter_identifiers =
          Sets.discard letter.aggregate.identifier state.dead_letter_identifiers;
      dropped_dead_letters = saturating_add state.dropped_dead_letters 1;
    } in
    elim (Bool-cases (full (suc (length letters)))) [
      | inl e ↦ rw e (evict_stops full letters fewer)
      | inr e ↦ inr (rw e (ground arith))
    ]

evict_counts :
    (full : ℕ → Bool) (letters : List MeterEventDeadLetter) (state : ExporterState)
    → state.dropped_dead_letters + length letters ≤ u64_max
    → let after = evict full letters state in
      after.dropped_dead_letters + length after.dead_letters
      ≡ state.dropped_dead_letters + length letters
unfolding evict saturating_add
evict_counts full [] state w = refl
evict_counts full (letter ∷ letters) state w =
    let fewer = record state {
      dead_letter_identifiers =
          Sets.discard letter.aggregate.identifier state.dead_letter_identifiers;
      dropped_dead_letters = saturating_add state.dropped_dead_letters 1;
    } in
    let more : saturating_add state.dropped_dead_letters 1 ≡ state.dropped_dead_letters + 1 =
      ground arith in
    elim (Bool-cases (full (suc (length letters)))) [
      | inl e ↦ rw e (omega (arith, evict_counts full letters fewer (omega (arith, more, w)), more))
      | inr e ↦ rw e refl
    ]

listed-append :
    (id : Str) (letters : List MeterEventDeadLetter) (last : MeterEventDeadLetter)
    → listed id (letters ++ last ∷ []) ≡ (str_eq last.aggregate.identifier id || listed id letters)
listed-append id [] last = refl
listed-append id (letter ∷ letters) last = ground (arith, listed-append id letters last)

OneEach-append :
    (letters : List MeterEventDeadLetter) (last : MeterEventDeadLetter)
    → OneEach letters
    → listed last.aggregate.identifier letters ≡ false
    → OneEach (letters ++ last ∷ [])
OneEach-append [] last o h = (refl, tt)
OneEach-append (letter ∷ letters) last o h = (
  ground (
    arith,
    listed-append letter.aggregate.identifier letters last,
    str_eq_iff letter.aggregate.identifier last.aggregate.identifier,
    str_eq_iff last.aggregate.identifier letter.aggregate.identifier,
  ),
  OneEach-append letters last o.1 (ground arith),
)

-- Eviction drops no identifier that another letter carries, and adds none.
evict_lists_less :
    (id : Str) (full : ℕ → Bool) (letters : List MeterEventDeadLetter) (state : ExporterState)
    → listed id letters ≡ false
    → listed id (evict full letters state).dead_letters ≡ false
unfolding evict
evict_lists_less id full [] state h = refl
evict_lists_less id full (letter ∷ letters) state h =
    let fewer = record state {
      dead_letter_identifiers =
          Sets.discard letter.aggregate.identifier state.dead_letter_identifiers;
      dropped_dead_letters = saturating_add state.dropped_dead_letters 1;
    } in
    elim (Bool-cases (full (suc (length letters)))) [
      | inl e ↦ rw e (evict_lists_less id full letters fewer (ground arith))
      | inr e ↦ rw e h
    ]

-- If the dead letters are at most the capacity, one for each event, and in step with the set of
-- their identifiers, they are so after an event is quarantined, whichever event it is.
pub quarantine_locked-IsKept :
    (capacity : ℕ) (aggregate : AggregatedUsage) (reason : MeterEventDeadLetterReason)
    (state : ExporterState)
    → IsKept capacity state
    → IsKept capacity (quarantine_locked capacity aggregate reason state).1
unfolding quarantine_locked append_letter
quarantine_locked-IsKept capacity aggregate reason state k =
    let id = aggregate.identifier in
    let after = evict (λ n. leb capacity n) state.dead_letters state in
    let kept = evict_keeps (λ n. leb capacity n) state.dead_letters state k.agrees k.one_each in
    let stops = evict_stops (λ n. leb capacity n) state.dead_letters state in
    let letter : MeterEventDeadLetter = record { aggregate = aggregate; reason = reason } in
    elim (Bool-cases (Sets.contains id state.dead_letter_identifiers)) [
      | inl e ↦ rw e k
      | inr e ↦ elim (Bool-cases (capacity == 0)) [
        | inl z ↦
            rw (e, z) (record { agrees = k.agrees; one_each = k.one_each; bounded = k.bounded })
        | inr z ↦
            rw (e, z)
              (record {
                agrees = λ j. ground (
                  arith,
                  Sets.contains-add id j after.dead_letter_identifiers,
                  listed-append j after.dead_letters letter,
                  kept.0 j,
                );
                one_each = OneEach-append after.dead_letters letter kept.1 (
                    evict_lists_less id (λ n. leb capacity n) state.dead_letters state
                      (sym (k.agrees id) ∙ e));
                bounded = ground (arith, length-append after.dead_letters (letter ∷ []), stops);
              })
      ]
    ]

-- Setting a capacity keeps at most that many letters, however many there were.
pub with_dead_letter_capacity-IsKept :
    (capacity : ℕ) (exporter : MeterEventExporter)
    → IsKept exporter.dead_letter_capacity exporter.state
    → IsKept capacity (with_dead_letter_capacity capacity exporter).state
unfolding with_dead_letter_capacity
with_dead_letter_capacity-IsKept capacity exporter k =
    let kept =
      evict_keeps (λ n. ltb capacity n) exporter.state.dead_letters exporter.state k.agrees
        k.one_each in
    record {
      agrees = kept.0;
      one_each = kept.1;
      bounded =
          ground
            (arith, evict_stops (λ n. ltb capacity n) exporter.state.dead_letters exporter.state);
    }

-- As long as the letters retained and dropped are together below the counter's maximum,
-- quarantining an event that has no letter yet makes them one more, and quarantining one that has
-- a letter leaves their number: no letter disappears uncounted.
pub quarantine_counts :
    (capacity : ℕ) (aggregate : AggregatedUsage) (reason : MeterEventDeadLetterReason)
    (state : ExporterState)
    → state.dropped_dead_letters + length state.dead_letters < u64_max
    → let after = (quarantine_locked capacity aggregate reason state).1 in
      after.dropped_dead_letters + length after.dead_letters
      ≡ state.dropped_dead_letters
        + length state.dead_letters
        + (if Sets.contains aggregate.identifier state.dead_letter_identifiers then 0 else 1)
unfolding quarantine_locked append_letter saturating_add
quarantine_counts capacity aggregate reason state w =
    let after = evict (λ n. leb capacity n) state.dead_letters state in
    let letter : MeterEventDeadLetter = record { aggregate = aggregate; reason = reason } in
    ground (
      arith,
      length-append after.dead_letters (letter ∷ []),
      evict_counts (λ n. leb capacity n) state.dead_letters state (omega (arith, w)),
    )
