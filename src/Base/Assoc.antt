-- ===== src/Base/Assoc.antt =====
-- Go maps with text keys, as lists of entries. A key is written in place, so keys stay distinct.
use jacu_harness.Base.{
  ◌≡◌, refl, String, Option, none, some, List, [], ◌∷◌, arith, eq_iff, if◌then◌else◌, ◌==◌,
  String-comparable,
}

module _ {V : Type 0} where
  -- `m[key]`, with the second result of the read
  unfoldable pub find : List (String × V) → String → Option V
  find [] key = none
  find ((k, v) ∷ m) key = if k == key then some v else find m key

  -- `m[key] = value`
  unfoldable pub put : List (String × V) → String → V → List (String × V)
  put [] key value = (key, value) ∷ []
  put ((k, v) ∷ m) key value = if k == key then (k, value) ∷ m else (k, v) ∷ put m key value

  -- `delete(m, key)`
  unfoldable pub drop_key : List (String × V) → String → List (String × V)
  drop_key [] key = []
  drop_key ((k, v) ∷ m) key = let rest = drop_key m key in if k == key then rest else (k, v) ∷ rest

  -- A read after a write: the value written at the key, and what was there at any other.
  pub find-put :
      (m : List (String × V)) (key other : String) (value : V)
      → find (put m key value) other ≡ (if key == other then some value else find m other)
  unfolding find put
  find-put [] key other value = refl
  find-put ((k, v) ∷ m) key other value =
      ground (arith, eq_iff k key, eq_iff k other, eq_iff key other, find-put m key other value)

  pub find-drop_key :
      (m : List (String × V)) (key other : String)
      → find (drop_key m key) other ≡ (if key == other then none else find m other)
  unfolding find drop_key
  find-drop_key [] key other = ground arith
  find-drop_key ((k, v) ∷ m) key other =
      ground (arith, eq_iff k key, eq_iff k other, eq_iff key other, find-drop_key m key other)
