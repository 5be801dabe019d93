-- ===== src/Orchestration/Resolve.antt =====
-- engine.go: `resolveNode`, which puts the results of earlier nodes and the flow's context into what
-- a node is called with. Go visits the keys of an object in no order; the model takes the order in
-- which they stand, so that only the choice among several errors may differ.
use Prim.Native.Char.{code}
use jacu_harness.Base.{
  ◌≡◌, refl, String, not, ◌&&◌, ◌||◌, List, [], ◌∷◌, Option, none, some, Result, ok, err, ◌>>=◌,
  inl, inr, subst, ap, if◌then◌else◌, ◌==◌, ℕ-comparable, String-comparable, Result-cases, arith,
}
use jacu_harness.Base.Assoc.{find}
use jacu_harness.Base.Paths.{onto_head}
use jacu_harness.Base.Strings.{has_prefix, trim_prefix}
use jacu_harness.Orchestration.Flow.{
  Value, text, other, object, array, Items, no_items, item, Fields, no_fields, field, Node,
}
use jacu_harness.Orchestration.Edges.{NodeResult}
use jacu_harness.Orchestration.Validation.{has_key, named_cli}

-- The output of a node is a map that may be nil.
abbrev pub Output : Type 0
Output = Option Fields

abbrev pub Results : Type 0
Results = List (String × NodeResult Output)

pub data ResolveError : Type 0 where
  invalid_context missing_context invalid_node incomplete no_output no_field : String → ResolveError
  not_an_object : String → ResolveError

-- `m[key]` on an object
unfoldable pub field_of : Fields → String → Option Value
field_of no_fields key = none
field_of (field k v fs) key = if k == key then some v else field_of fs key

-- `strings.Split(s, ".")`
unfoldable pub split_dot : String → List String
split_dot String.[] = "" ∷ []
split_dot (String.◌∷◌ c s) =
    let rest = split_dot s in if code c == b'.' then "" ∷ rest else onto_head (String.◌∷◌ c "") rest

or_error : ResolveError → Option Value → Result ResolveError Value
or_error e none = err e
or_error e (some v) = ok v

-- the branch for `$context.`
unfoldable pub from_context : Fields → String → List String → Result ResolveError Value
unfolding or_error
from_context initial raw (key ∷ []) = or_error (missing_context raw) (field_of initial key)
from_context initial raw parts = err (invalid_context raw)

from_output : String → String → Output → Result ResolveError Value
unfolding or_error
from_output raw name none = err (no_output raw)
from_output raw name (some fs) = or_error (no_field raw) (field_of fs name)

from_result : String → String → Option (NodeResult Output) → Result ResolveError Value
unfolding from_output
from_result raw name none = err (incomplete raw)
from_result raw name (some r) =
    if name == "verdict"
    then ok (text r.verdict)
    else if name == "policy"
    then ok (text r.policy)
    else from_output raw name r.output

-- the branch for `$node.`
unfoldable pub from_node : Results → String → List String → Result ResolveError Value
unfolding from_result
from_node results raw (id ∷ name ∷ []) = from_result raw name (find results id)
from_node results raw parts = err (invalid_node raw)

unfoldable pub resolve_text : Results → Fields → String → Result ResolveError Value
unfolding from_context from_node
resolve_text results initial raw =
    let parts = split_dot (trim_prefix (trim_prefix raw "$node.") "$context.") in
    if not (has_prefix raw "$node.") && not (has_prefix raw "$context.")
    then ok (text raw)
    else if has_prefix raw "$context."
    then from_context initial raw parts
    else from_node results raw parts

-- `resolveValue`
unfoldable mutual
  unfolding resolve_text

  pub resolve_value : Results → Fields → Value → Result ResolveError Value
  resolve_value results initial (text raw) = resolve_text results initial raw
  resolve_value results initial (other raw) = ok (other raw)
  resolve_value results initial (object fs) = do
    fs' ← resolve_fields results initial fs
    ok (object fs')
  resolve_value results initial (array xs) = do
    xs' ← resolve_items results initial xs
    ok (array xs')

  pub resolve_items : Results → Fields → Items → Result ResolveError Items
  resolve_items results initial no_items = ok no_items
  resolve_items results initial (item x xs) = do
    x' ← resolve_value results initial x
    xs' ← resolve_items results initial xs
    ok (item x' xs')

  pub resolve_fields : Results → Fields → Fields → Result ResolveError Fields
  resolve_fields results initial no_fields = ok no_fields
  resolve_fields results initial (field k v fs) = do
    v' ← resolve_value results initial v
    fs' ← resolve_fields results initial fs
    ok (field k v' fs')

-- The tests on the resolved value. An object is never nil, so only the first case is reached.
unfoldable pub with_value : Node → Value → Result ResolveError Node
with_value node (object fs) = ok (record node { with_fields = fs })
with_value node (other raw) = if raw == "null" then ok node else err (not_an_object node.id)
with_value node value = err (not_an_object node.id)

unfoldable pub resolve_node : Results → Fields → Node → Result ResolveError Node
unfolding with_value
resolve_node results initial node = do
  value ← resolve_value results initial (object node.with_fields)
  with_value node value

resolve_fields-has_key :
    (results : Results) (initial fs fs' : Fields)
    → resolve_fields results initial fs ≡ ok fs'
    → (key : String) → has_key fs' key ≡ has_key fs key
unfolding resolve_value has_key
resolve_fields-has_key results initial no_fields fs' h key = ground arith
resolve_fields-has_key results initial (field k v fs) fs' h key =
    elim (Result-cases (resolve_value results initial v)) [
      | inr (e, q) ↦ absurd (ground arith)
      | inl (v', q) ↦ elim (Result-cases (resolve_fields results initial fs)) [
        | inr (e, p) ↦ absurd (ground arith)
        | inl (fs'', p) ↦
            let keys = resolve_fields-has_key results initial fs fs'' p key in
            let filled : field k v' fs'' ≡ fs' = ground arith in
            subst (λ g. has_key g key ≡ has_key (field k v fs) key) filled
              (ap (λ b. k == key || b) keys)
      ]
    ]

-- What a node is resolved to is the node with other values under the same keys.
pub record IsFilled (node node' : Node) : Type 0 where
  pub same_else : node' ≡ record node { with_fields = node'.with_fields }
  pub same_keys : (key : String) → has_key node'.with_fields key ≡ has_key node.with_fields key

pub resolve_node-IsFilled :
    (results : Results) (initial : Fields) (node node' : Node)
    → resolve_node results initial node ≡ ok node'
    → IsFilled node node'
unfolding resolve_node resolve_value
resolve_node-IsFilled results initial node node' h =
    elim (Result-cases (resolve_fields results initial node.with_fields)) [
      | inr (e, p) ↦ absurd (ground arith)
      | inl (fs, p) ↦
          let filled : record node { with_fields = fs } ≡ node' = ground arith in
          subst (IsFilled node) filled (record {
            same_else = refl;
            same_keys = resolve_fields-has_key results initial node.with_fields fs p;
          })
    ]

pub IsFilled-named_cli :
    (node node' : Node) → IsFilled node node' → named_cli node' ≡ named_cli node
unfolding named_cli
IsFilled-named_cli node node' f =
    rw (f.same_keys "cli", f.same_keys "binary", f.same_keys "command", f.same_keys "executable")
      refl
