-- ===== src/RunState/Store.antt =====
-- `Save`, `SaveLocked`, `Load`, `Delete` and `saveWithRename`, over the directory of the runs. A file
-- holds a text, which encoding/json made of a run or which anyone wrote; one that cannot be read is kept
-- apart. The encoding itself is an argument.
pub mod Atomic
pub mod History
use jacu_harness.Base.{
  ◌≡◌, ℕ, ◌+◌, String, Bool, true, false, not, Option, none, some, Result, ok, err, List,
  if◌then◌else◌, ◌==◌, String-comparable, ◌>>=◌, ◌>>◌, refuse,
}
use jacu_harness.Base.Assoc.{find, put, drop_key}
use jacu_harness.RunState.{
  Run, RunError, invalid_run_id, not_exist, unreadable, undecodable, run_id_mismatch,
  created_at_immutable, disk, transition, normalize_schema_version, time_equal,
}
use jacu_harness.RunState.Ids.{valid_run_id}

-- `json.MarshalIndent` of a run, with the line feed that is put behind its text, and `json.Unmarshal`
-- into one, over the texts of files. Either may give an error.
pub record Codec (D Text : Type 0) : Type 0 where
  pub marshal : Run D → Option Text
  pub unmarshal : Text → Option (Run D)

-- What the code relies on in encoding/json: a text that it made of a run is read as a run with the same
-- schema version, id, status and creation time, whatever becomes of the other fields: an empty slice
-- under `omitempty` comes back as nil.
pub record Rereads {D Text : Type 0} (codec : Codec D Text) : Type 0 where
  pub reread : Run D → D
  pub unmarshal_marshal :
      (run : Run D) (text : Text)
      → codec.marshal run ≡ some text
      → codec.unmarshal text ≡ some (record run { details = reread run })

pub data RunFile (Text : Type 0) : Type 0 where
  holds : Text → RunFile Text
  unread : RunFile Text

-- The directory: the run files by id, and how many temporary files are left.
pub record RunDir (Text : Type 0) : Type 0 where
  pub files : List (String × RunFile Text)
  pub temps : ℕ

-- Which of the steps of one write fails.
pub record Faults : Type 0 where
  pub mkdir : Bool
  pub create : Bool
  pub write : Bool
  pub sync : Bool
  pub close : Bool
  pub rename : Bool
  pub remove : Bool

-- the deferred removal of the temporary file
remove_temp : {Text : Type 0} → RunDir Text → Bool → RunDir Text
remove_temp d fails = if fails then record d { temps = d.temps + 1 } else d

-- `saveWithRename` behind the encoding; the rename puts the new file in place of the old at once.
pub write_file :
    {Text : Type 0} → RunDir Text → String → Text → Faults → RunDir Text × Option RunError
unfolding remove_temp
write_file d run_id text faults =
    if faults.create
    then (d, some disk)
    else if faults.write
    then (remove_temp d faults.remove, some disk)
    else if faults.sync
    then (remove_temp d faults.remove, some disk)
    else if faults.close
    then (remove_temp d faults.remove, some disk)
    else if faults.rename
    then (remove_temp d faults.remove, some disk)
    else (record d { files = put d.files run_id (holds text) }, none)

-- What `SaveLocked` makes of the run that is there: whether the write may go on.
pub admit : {D : Type 0} → Result RunError (Run D) → Run D → Option RunError
admit (ok existing) run =
    if not (time_equal existing.created_at run.created_at)
    then some created_at_immutable
    else elim (transition existing.status run.status) [ ok s ↦ none | err e ↦ some e ]
admit (err not_exist) run = none
admit (err e) run = some e

module _ {D Text : Type 0} (codec : Codec D Text) where
  decoded : RunFile Text → Result RunError (Run D)
  decoded (holds text) = elim (codec.unmarshal text) [ none ↦ err undecodable | some run ↦ ok run ]
  decoded unread = err unreadable

  pub read_run : Option (RunFile Text) → Result RunError (Run D)
  unfolding decoded
  read_run none = err not_exist
  read_run (some file) = decoded file

  unfoldable pub load : RunDir Text → String → Result RunError (Run D)
  unfolding read_run
  load d run_id = do
    refuse (not (valid_run_id run_id)) invalid_run_id
    run ← read_run (find d.files run_id)
    refuse (not (run.run_id == run_id)) run_id_mismatch
    normalize_schema_version run

  unfoldable pub save_with_rename : RunDir Text → Run D → Faults → RunDir Text × Option RunError
  unfolding write_file
  save_with_rename d run faults =
      if faults.mkdir then (d, some disk) else elim (codec.marshal run) [
        | none ↦ (d, some disk)
        | some text ↦ write_file d run.run_id text faults
      ]

  -- `Save` holds the lock of the repository around `SaveLocked`, so that it is one step.
  unfoldable pub save_locked : RunDir Text → Run D → Faults → RunDir Text × Option RunError
  unfolding admit
  save_locked d raw faults = elim (normalize_schema_version raw) [
    | err e ↦ (d, some e)
    | ok run ↦ elim (admit (load d run.run_id) run) [
      | some e ↦ (d, some e)
      | none ↦ save_with_rename d run faults
    ]
  ]

-- `Delete`; the flag says whether the removal fails.
unfoldable pub delete_run :
    {Text : Type 0} → RunDir Text → String → Bool → RunDir Text × Option RunError
delete_run d run_id fails =
    if not (valid_run_id run_id) then (d, some invalid_run_id) else elim (find d.files run_id) [
      | none ↦ (d, some not_exist)
      | some file ↦
          if fails then (d, some disk) else (record d { files = drop_key d.files run_id }, none)
    ]
