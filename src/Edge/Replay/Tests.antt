-- ===== src/Edge/Replay/Tests.antt =====
-- A store and a guard with room for two proofs.
use mcp_usage_kit.Prelude.Assoc
use mcp_usage_kit.Edge.Replay.{InMemoryReplayStore, is_live, reserve}
use mcp_usage_kit.Edge.Replay.Memory.{grants, holder, holder_after, reserve-refines}
use mcp_usage_kit.Prelude.{
  [], arith, false, inr, refl, retain, some, str, str_eq, str_equal, strs_equal, true, ◌↔◌, ◌∷◌,
  ◌≡◌, ◌≢◌,
}

abbrev one_key : InMemoryReplayStore
one_key = record { entries = (str "k", (100, str "a")) ∷ [] }

reserve-refines_example :
    (((reserve 1000 one_key 100 (str "b") (str "k") 50).1
        ≡ inr (some (record { key = str "k"; owner = str "b" })))
      ↔ (grants 1000 one_key 100 (str "k") 50 ≡ true))
    × (holder (reserve 1000 one_key 100 (str "b") (str "k") 50).0 120 (str "k")
        ≡ holder_after 1000 one_key 100 (str "b") (str "k") 50 120 (str "k"))
reserve-refines_example =
    reserve-refines 1000 one_key 100 (str "b") (str "k") 50 120 (str "k")
      (unfold Assoc.lookup in (refl, tt)) (omega arith)

-- An expired key is granted again, a live one is not.
again : grants 1000 one_key 100 (str "k") 50 ≡ true
unfolding grants holder Assoc.lookup str_eq is_live retain
again = refl

still_held : grants 1000 one_key 99 (str "k") 50 ≡ false
unfolding grants holder Assoc.lookup str_eq is_live retain
still_held = refl

b_is_not_a : str "b" ≢ str "a"
b_is_not_a e = ground (arith, e)
