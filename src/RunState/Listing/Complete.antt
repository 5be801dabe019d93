-- ===== src/RunState/Listing/Complete.antt =====
-- A listing is complete, in order, and true to the files.
use Prim.Native.String.{◌++◌ as str_append}
use mathlib.Core.List.{Perm}
use mathlib.Core.List.Perm
use jacu_harness.Base.{
  ◌≡◌, ◌≢◌, refl, sym, ◌⊎◌, inl, inr, String, Bool, true, false, List, [], ◌∷◌, map, Result, ok,
  err, arith, eq_iff, String-comparable, Bool-cases, Result-cases, subst, All, All-of_In, All-In,
  ◌<◌, ◌+◌,
}
use jacu_harness.Base.Int.{pos, pos_part, neg_part, eq_of_parts}
use jacu_harness.Base.Sort.{IsLess, sort, Sorted, sort-Sorted, sort-perm, sort-In}
use jacu_harness.Base.Strings.{has_suffix, trim_suffix, str_lt, str_lt-asym, str_lt-trans_not}
use jacu_harness.Base.Suffix.{has_suffix-split, has_suffix-none}
use jacu_harness.RunState.{Run, RunError, time_equal}
use jacu_harness.RunState.Store.Atomic.{load-id}
use jacu_harness.RunState.Store.{Codec, RunDir, load}
use jacu_harness.RunState.Listing.{
  entries, is_skipped, corrupted_run, listed_as, is_zero_time, listed_before, listed_run,
  collect_runs, list_runs,
}

listed_before-IsLess : {D : Type 0} → IsLess (listed_before {D = D})
unfolding listed_before
listed_before-IsLess = record {
  asym = λ a b h. ground (arith, str_lt-asym a.run_id b.run_id);
  trans_not = λ a b c h k. ground (arith, str_lt-trans_not a.run_id b.run_id c.run_id);
}

-- The ids of the run files among the entries of a directory: each entry that is no directory and whose
-- name is an id with `.json` behind it.
pub data Names : List (String × Bool) → List String → Type 0 where
  no_entry : Names [] []
  run_file :
      {e : String × Bool} {es : List (String × Bool)} {ids : List String} (id : String)
      → e.1 ≡ false
      → e.0 ≡ str_append id ".json"
      → Names es ids
      → Names (e ∷ es) (id ∷ ids)
  directory :
      {e : String × Bool} {es : List (String × Bool)} {ids : List String}
      → e.1 ≡ true
      → Names es ids
      → Names (e ∷ es) ids
  other_file :
      {e : String × Bool} {es : List (String × Bool)} {ids : List String}
      → ¬ ((id : String) × (e.0 ≡ str_append id ".json"))
      → Names es ids
      → Names (e ∷ es) ids

-- An entry of a listing may stand before another: its time is known and the other's is not; both are
-- known and its is earlier; or the times are the same, and its id is not behind the other's.
pub data MayPrecede {D : Type 0} (a b : Run D) : Type 0 where
  only_known : a.created_at ≢ pos 0 → b.created_at ≡ pos 0 → MayPrecede a b
  earlier :
      a.created_at ≢ pos 0
      → b.created_at ≢ pos 0
      → pos_part a.created_at + neg_part b.created_at
        < pos_part b.created_at + neg_part a.created_at
      → MayPrecede a b
  same_time : a.created_at ≡ b.created_at → str_lt b.run_id a.run_id ≡ false → MayPrecede a b

-- Each run may precede every later one.
abbrev pub InOrder : {D : Type 0} → List (Run D) → Type 0
InOrder [] = Unit {0}
InOrder (r ∷ rs) = All (MayPrecede r) rs × InOrder rs

zero_time : {D : Type 0} (r : Run D) → is_zero_time r ≡ true → r.created_at ≡ pos 0
zero_time r h = eq_of_parts r.created_at (pos 0) (ground arith)

known_time : {D : Type 0} (r : Run D) → is_zero_time r ≡ false → r.created_at ≢ pos 0
known_time r h e = let z : is_zero_time r ≡ true = rw e refl in ground arith

not_before-MayPrecede : {D : Type 0} (a b : Run D) → listed_before b a ≡ false → MayPrecede a b
unfolding listed_before
not_before-MayPrecede a b h = elim (Bool-cases (time_equal b.created_at a.created_at)) [
  | inl t ↦ same_time (sym (eq_of_parts b.created_at a.created_at (ground arith))) (ground arith)
  | inr t ↦ elim (Bool-cases (is_zero_time b)) [
    | inl z ↦ only_known (known_time a (ground arith)) (zero_time b z)
    | inr k ↦ elim (Bool-cases (is_zero_time a)) [
      | inl z ↦ absurd (ground arith)
      | inr l ↦ earlier (known_time a l) (known_time b k) (ground arith)
    ]
  ]
]

Sorted-InOrder : {D : Type 0} (rs : List (Run D)) → Sorted listed_before rs → InOrder rs
Sorted-InOrder [] s = tt
Sorted-InOrder (r ∷ rs) s = (
  All-of_In (MayPrecede r) rs (λ x i. not_before-MayPrecede r x (All-In _ rs s.0 i)),
  Sorted-InOrder rs s.1,
)

module _ {D : Type 0} (no_details : D) where
  listed_as-id :
      (id : String) (r : Result RunError (Run D)) → (listed_as no_details id r).run_id ≡ id
  unfolding listed_as corrupted_run
  listed_as-id id (err e) = refl
  listed_as-id id (ok run) = ground (arith, eq_iff run.run_id id)

module _ {D Text : Type 0} (codec : Codec D Text) (no_details : D) where
  listed_run-id : (d : RunDir Text) (id : String) → (listed_run codec no_details d id).run_id ≡ id
  unfolding listed_run
  listed_run-id d id = listed_as-id no_details id (load codec d id)

  abbrev ids_of : List (Run D) → List String
  ids_of runs = map (λ r. r.run_id) runs

  collect_runs-Names :
      (d : RunDir Text) (es : List (String × Bool))
      → Names es (ids_of (collect_runs codec no_details d es))
  unfolding collect_runs is_skipped
  collect_runs-Names d [] = no_entry
  collect_runs-Names d ((name, true) ∷ es) = directory refl (collect_runs-Names d es)
  collect_runs-Names d ((name, false) ∷ es) = elim (Bool-cases (has_suffix name ".json")) [
    | inl t ↦
        rw (t, listed_run-id)
          (run_file (trim_suffix name ".json") refl (has_suffix-split name ".json" t)
            (collect_runs-Names d es))
    | inr t ↦ rw t (other_file (has_suffix-none name ".json" t) (collect_runs-Names d es))
  ]

  -- The run is what its file loads, or stands for a file that does not load: an empty run of that id
  -- under the status corrupted.
  abbrev pub Faithful : RunDir Text → Run D → Type 0
  Faithful d r =
      (load codec d r.run_id ≡ ok r)
      ⊎ ((r ≡ record {
        schema_version = "";
        run_id = r.run_id;
        status = "corrupted";
        created_at = pos 0;
        details = no_details;
      })
          × (¬ ((s : Run D) × (load codec d r.run_id ≡ ok s))))

  listed_run-Faithful :
      (d : RunDir Text) (id : String) → Faithful d (listed_run codec no_details d id)
  unfolding listed_run listed_as corrupted_run
  listed_run-Faithful d id = elim (Result-cases (load codec d id)) [
    | inl (r, e) ↦
        let own : r.run_id ≡ id = load-id codec d id r e in
        let same : listed_run codec no_details d id ≡ r = ground (arith, eq_iff r.run_id id) in
        subst (Faithful d) (sym same) (inl (subst (λ x. load codec d x ≡ ok r) (sym own) e))
    | inr (x, e) ↦
        let same : listed_run codec no_details d id ≡ corrupted_run no_details id = ground arith in
        subst (Faithful d) (sym same) (inr (refl, λ (s, k). ground arith))
  ]

  collect_runs-Faithful :
      (d : RunDir Text) (es : List (String × Bool))
      → All (Faithful d) (collect_runs codec no_details d es)
  unfolding collect_runs
  collect_runs-Faithful d [] = tt
  collect_runs-Faithful d (e ∷ es) = elim (Bool-cases (is_skipped e)) [
    | inl t ↦ rw t (collect_runs-Faithful d es)
    | inr t ↦ rw t (listed_run-Faithful d (trim_suffix e.0 ".json"), collect_runs-Faithful d es)
  ]

  -- A listing that succeeds has one entry for every file of the directory that is no directory and is
  -- named by an id with `.json` behind it, under that id, and no other entry. Of two entries the first
  -- has a known time where the second has none, or both are known and its is earlier, or the times are
  -- the same and its id is not behind the other. And each entry is what its file loads, or is an
  -- empty run under the status corrupted for a file that does not load.
  pub list_runs_complete :
      (d : RunDir Text) (es : List (String × Bool)) (runs : List (Run D))
      → list_runs codec no_details d (entries es) ≡ ok runs
      → ((ids : List String) × Names es ids × Perm (map (λ r. r.run_id) runs) ids)
        × InOrder runs
        × All (Faithful d) runs
  unfolding list_runs
  list_runs_complete d es runs h =
      let found = collect_runs codec no_details d es in
      let e : sort listed_before found ≡ runs = ground arith in
      subst
        (λ l.
          ((ids : List String) × Names es ids × Perm (map (λ r. r.run_id) l) ids)
          × InOrder l
          × All (Faithful d) l)
        e
        (
          (
            ids_of found,
            collect_runs-Names d es,
            Perm.map (λ r. r.run_id) (sort-perm listed_before found),
          ),
          Sorted-InOrder (sort listed_before found)
              (sort-Sorted listed_before listed_before-IsLess found),
          All-of_In (Faithful d) (sort listed_before found) λ r m.
              All-In (Faithful d) found (collect_runs-Faithful d es)
                (sort-In listed_before r found m),
        )
