-- ===== src/RunState/Listing.antt =====
-- `List`: every run file of the directory, damaged ones included, in the order of creation.
pub mod Complete
use jacu_harness.Base.{
  String, Bool, not, ◌||◌, ◌&&◌, List, [], ◌∷◌, Result, ok, err, if◌then◌else◌, ◌==◌, ℕ-comparable,
  String-comparable,
}
use jacu_harness.Base.Int.{pos, ltb_ℤ}
use jacu_harness.Base.Sort.{sort}
use jacu_harness.Base.Strings.{has_suffix, trim_suffix, str_lt}
use jacu_harness.RunState.{Run, RunError, unreadable, status_corrupted, time_equal}
use jacu_harness.RunState.Store.{Codec, RunDir, load}

-- What `os.ReadDir` gives: names with their directory flag.
pub data Entries : Type 0 where
  no_directory unreadable_directory : Entries
  entries : List (String × Bool) → Entries

-- A directory, or a name whose extension is not `.json`.
unfoldable pub is_skipped : String × Bool → Bool
is_skipped (name, is_dir) = is_dir || not (has_suffix name ".json")

abbrev pub is_zero_time : {D : Type 0} → Run D → Bool
is_zero_time run = time_equal run.created_at (pos 0)

unfoldable pub listed_before : {D : Type 0} → Run D → Run D → Bool
listed_before a b =
    if not (is_zero_time a && is_zero_time b || not (is_zero_time a) && not (is_zero_time b))
    then not (is_zero_time a)
    else if time_equal a.created_at b.created_at
    then str_lt a.run_id b.run_id
    else ltb_ℤ a.created_at b.created_at

module _ {D : Type 0} (no_details : D) where
  pub corrupted_run : String → Run D
  corrupted_run run_id = record {
    schema_version = "";
    run_id = run_id;
    status = status_corrupted;
    created_at = pos 0;
    details = no_details;
  }

  pub listed_as : String → Result RunError (Run D) → Run D
  unfolding corrupted_run
  listed_as run_id (err e) = corrupted_run run_id
  listed_as run_id (ok run) = if not (run.run_id == run_id) then corrupted_run run_id else run

module _ {D Text : Type 0} (codec : Codec D Text) (no_details : D) where
  -- the body of the loop over one run file
  unfoldable pub listed_run : RunDir Text → String → Run D
  unfolding listed_as
  listed_run d run_id = listed_as no_details run_id (load codec d run_id)

  unfoldable pub collect_runs : RunDir Text → List (String × Bool) → List (Run D)
  collect_runs d [] = []
  collect_runs d (e ∷ es) =
      let rest = collect_runs d es in
      if is_skipped e then rest else listed_run d (trim_suffix e.0 ".json") ∷ rest

  unfoldable pub list_runs : RunDir Text → Entries → Result RunError (List (Run D))
  list_runs d no_directory = ok []
  list_runs d unreadable_directory = err unreadable
  list_runs d (entries es) = ok (sort listed_before (collect_runs d es))
