-- ===== src/Tower/Inspect/Rendered.antt =====
-- crates/mcp-usage-tower/src/cache.rs, `render_with_id`: a cached body under the id of the request that
-- it answers.
use mcp_usage_kit.Core.Json.{Fields, Value, end, field, find, get, object}
use mcp_usage_kit.Prelude.{
  Bool, Bool-cases, Option, Str, arith, false, inl, inr, is_some, none, not, refl, some, str,
  str_eq, str_eq_iff, true, ◌||◌, ◌≡◌, ◌≢◌,
}
use mcp_usage_kit.Tower.Inspect.{render_with_id, substituted, with_id}

find-with_id :
    (fs : Fields) (id : Value) (appended : Bool) (key : Str)
    → str_eq (str "id") key ≡ false
    → find key (with_id fs id appended) ≡ find key fs
unfolding with_id find
find-with_id end id true key h = rw h refl
find-with_id end id false key h = refl
find-with_id (field name value fs) id appended key h = elim (Bool-cases (str_eq name key)) [
  | inl found ↦
      let named : name ≡ key = (str_eq_iff name key).0 found in
      let no_id : str_eq name (str "id") ≡ false =
        ground (arith, str_eq_iff name (str "id"), str_eq_iff (str "id") key, named, h) in
      rw (found, no_id) refl
  | inr other_name ↦ rw other_name (find-with_id fs id appended key h)
]

-- The id is found, where there was one or one is appended.
id-with_id :
    (fs : Fields) (id : Value) (appended : Bool)
    → is_some (find (str "id") fs) || appended ≡ true
    → find (str "id") (with_id fs id appended) ≡ some id
unfolding with_id find str_eq
id-with_id end id true h = refl
id-with_id end id false h = absurd cc
id-with_id (field name value fs) id appended h = elim (Bool-cases (str_eq name (str "id"))) [
  | inl found ↦ rw found refl
  | inr other_name ↦ rw other_name (id-with_id fs id appended (grind arith))
]

covered : (found : Option Value) → is_some found || not (is_some found) ≡ true
covered none = refl
covered (some value) = refl

-- A cached answer is served under the id of the request that it answers, and is else unchanged: when
-- the parser reads back what the writer writes for it, a cached object rendered with an id is read as
-- an object that has this id, and every other member that the cached one has, and no other.
pub render_with_id-find :
    (from_json : Str → Option Value) (write : Value → Str) (fs : Fields) (id : Value)
    → from_json (write (substituted (some id) (object fs)))
      ≡ some (substituted (some id) (object fs))
    → (answer : Value) × (from_json (render_with_id write (object fs) (some id)) ≡ some answer)
      × (get answer (str "id") ≡ some id)
      × ((key : Str) → str "id" ≢ key → get answer key ≡ get (object fs) key)
unfolding render_with_id substituted get
render_with_id-find from_json write fs id reads =
    let appended = not (is_some (find (str "id") fs)) in
    (
      object (with_id fs id appended),
      reads,
      id-with_id fs id appended (covered (find (str "id") fs)),
      λ key apart.
          find-with_id fs id appended key (ground (arith, str_eq_iff (str "id") key, apart)),
    )
