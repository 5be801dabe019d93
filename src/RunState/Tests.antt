-- ===== src/RunState/Tests.antt =====
-- A directory with two runs and a damaged file, and the theorems applied there.
use Prim.Native.String.{len}
use mathlib.Core.List.{Perm}
use jacu_harness.Base.{
  ◌≡◌, refl, ◌⊎◌, String, Bool, true, false, none, some, ok, err, List, [], ◌∷◌, map, All, arith,
  if◌then◌else◌, ◌==◌, String-comparable,
}
use jacu_harness.Base.Assoc.{find}
use jacu_harness.Base.Int.{pos}
use jacu_harness.Base.Paths.{split_slash}
use jacu_harness.Base.Sort.{sort}
use jacu_harness.Base.Strings.{has_prefix, has_suffix, trim_prefix, trim_suffix}
use jacu_harness.RunState.{
  Run, disk, invalid_transition, transition, status_open, status_reviewed, status_applied,
  status_corrupted, normalize_schema_version,
}
use jacu_harness.RunState.Ids.{valid_run_id, AllSafe, valid_run_id-AllSafe}
use jacu_harness.RunState.Lifecycle.{Moves, transition_decides}
use jacu_harness.RunState.Store.{
  Codec, Rereads, holds, RunDir, Faults, load, save_locked, save_with_rename,
}
use jacu_harness.RunState.Store.Atomic.{save_error_untouched}
use jacu_harness.RunState.Store.History.{none_yet, then_save, MovesOn, history_kept}
use jacu_harness.RunState.Listing.{
  entries, is_skipped, list_runs, collect_runs, listed_run, listed_before,
}
use jacu_harness.RunState.Listing.Complete.{Names, InOrder, Faithful, list_runs_complete}

abbrev first_id : String
first_id = "run_0123456789abcdef"

abbrev second_id : String
second_id = "run_00000000000000aa"

abbrev third_id : String
third_id = "run_ffffffffffffffff"

abbrev run_of : String → String → Run (Unit {0})
run_of id status = record {
  schema_version = "1";
  run_id = id;
  status = status;
  created_at = pos 7;
  details = tt;
}

-- Texts that are the runs themselves; those without an id do not decode.
abbrev plain : Codec (Unit {0}) (Run (Unit {0}))
plain = record { marshal = λ r. some r; unmarshal = λ r. if r.run_id == "" then none else some r }

abbrev whole : Codec (Unit {0}) (Run (Unit {0}))
whole = record { marshal = λ r. some r; unmarshal = λ r. some r }

whole-Rereads : Rereads whole
whole-Rereads = record { reread = λ r. tt; unmarshal_marshal = λ r t h. ground arith }

abbrev directory : RunDir (Run (Unit {0}))
directory = record {
  files =
      (first_id, holds (run_of first_id status_open))
      ∷ (third_id, holds (run_of "" status_open))
      ∷ [];
  temps = 0;
}

abbrev no_faults : Faults
no_faults = record {
  mkdir = false;
  create = false;
  write = false;
  sync = false;
  close = false;
  rename = false;
  remove = false;
}

first_accepted : valid_run_id first_id ≡ true
unfolding valid_run_id has_prefix trim_prefix
first_accepted = refl

valid_run_id-AllSafe_example :
    (len first_id ≡ 20) × AllSafe first_id × (split_slash first_id ≡ first_id ∷ [])
valid_run_id-AllSafe_example = valid_run_id-AllSafe first_id first_accepted

transition_decides_example :
    (Moves status_open status_applied × (transition status_open status_applied ≡ ok status_applied))
    ⊎ ((¬ Moves status_open status_applied)
        × (transition status_open status_applied
            ≡ err (invalid_transition status_open status_applied)))
transition_decides_example = transition_decides status_open status_applied

abbrev rename_fails : Faults
rename_fails = record no_faults { rename = true }

second_fails :
    (save_locked whole directory (run_of second_id status_open) rename_fails).1 ≡ some disk
unfolding save_locked save_with_rename load valid_run_id has_prefix trim_prefix find
    normalize_schema_version
second_fails = refl

save_error_untouched_example :
    (save_locked whole directory (run_of second_id status_open) rename_fails).0.files
    ≡ directory.files
save_error_untouched_example =
    save_error_untouched whole directory (run_of second_id status_open) rename_fails disk
      second_fails

second_saved : (save_locked whole directory (run_of second_id status_open) no_faults).1 ≡ none
unfolding save_locked save_with_rename load valid_run_id has_prefix trim_prefix find
    normalize_schema_version
second_saved = refl

first_loads : load whole directory first_id ≡ ok (run_of first_id status_open)
unfolding load valid_run_id has_prefix trim_prefix find normalize_schema_version
first_loads = refl

abbrev reviewed : RunDir (Run (Unit {0}))
reviewed = (save_locked whole directory (run_of first_id status_reviewed) no_faults).0

abbrev two_saves : RunDir (Run (Unit {0}))
two_saves = (save_locked whole reviewed (run_of first_id status_applied) rename_fails).0

history_kept_example :
    (new : Run (Unit {0})) × (load whole two_saves first_id ≡ ok new)
    × (new.created_at ≡ pos 7)
    × MovesOn status_open new.status
history_kept_example =
    history_kept whole whole-Rereads directory two_saves first_id (run_of first_id status_open)
      (then_save (run_of first_id status_applied) rename_fails
        (then_save (run_of first_id status_reviewed) no_faults none_yet))
      first_loads

abbrev names : List (String × Bool)
names =
    ("run_ffffffffffffffff.json", false)
    ∷ ("old", true)
    ∷ ("run_0123456789abcdef.json", false)
    ∷ ("notes.txt", false)
    ∷ []

abbrev listing : List (Run (Unit {0}))
listing =
    run_of first_id status_open
    ∷ record (run_of third_id status_corrupted) { schema_version = ""; created_at = pos 0 }
    ∷ []

listed : list_runs plain tt directory (entries names) ≡ ok listing
unfolding list_runs sort collect_runs is_skipped listed_run listed_before load valid_run_id
    has_prefix trim_prefix has_suffix trim_suffix find normalize_schema_version
listed = refl

list_runs_complete_example :
    ((ids : List String) × Names names ids × Perm (map (λ r. r.run_id) listing) ids)
    × InOrder listing
    × All (Faithful plain tt directory) listing
list_runs_complete_example = list_runs_complete plain tt directory names listing listed
