-- ===== src/RunState.antt =====
-- internal/runstate: the record of a run, its status and its identity.
pub mod Ids
pub mod Lifecycle
pub mod Store
pub mod Listing
mod Tests
use jacu_harness.Base.{
  ℕ, String, Bool, true, false, not, ◌&&◌, ◌||◌, Option, none, some, Result, ok, err, if◌then◌else◌,
  ◌==◌, String-comparable, ℕ-comparable, ◌+◌,
}
use jacu_harness.Base.Int.{ℤ, pos, pos_part, neg_part}

abbrev pub status_open : String
status_open = "open"

abbrev pub status_reviewed : String
status_reviewed = "reviewed"

abbrev pub status_applied : String
status_applied = "applied"

abbrev pub status_discarded : String
status_discarded = "discarded"

abbrev pub status_corrupted : String
status_corrupted = "corrupted"

abbrev pub current_schema_version : String
current_schema_version = "1"

-- `Run`. Times are nanoseconds from Go's zero time. `details` holds the fields that the package
-- stores and never reads: the mission, digests, worktree and program state.
pub record Run (D : Type 0) : Type 0 where
  pub schema_version : String
  pub run_id : String
  pub status : String
  pub created_at : ℤ
  pub details : D

pub data RunError : Type 0 where
  invalid_transition : String → String → RunError
  created_at_immutable invalid_run_id run_id_mismatch unsupported_schema undecodable unreadable
        not_exist disk :
      RunError

-- The status after `Transition(next)`, or its error.
unfoldable pub transition : String → String → Result RunError String
transition status next =
    if status == next
    then ok status
    else if next == status_corrupted
    then ok next
    else if not (
        (status == status_open && (next == status_reviewed || next == status_discarded))
        || ((status == status_reviewed && (next == status_applied || next == status_discarded))
            || (status == status_corrupted && next == status_discarded)))
    then err (invalid_transition status next)
    else ok next

unfoldable pub normalize_schema_version : {D : Type 0} → Run D → Result RunError (Run D)
normalize_schema_version run =
    let version = if run.schema_version == "" then current_schema_version else run.schema_version in
    if not (version == current_schema_version)
    then err unsupported_schema
    else ok (record run { schema_version = version })

-- `Time.Equal`
abbrev pub time_equal : ℤ → ℤ → Bool
time_equal a b = (pos_part a + neg_part b) == (pos_part b + neg_part a)
